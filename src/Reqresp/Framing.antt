-- ===== src/Reqresp/Framing.antt =====
-- reqresp/framing.go and the response half of reqresp/inbound.go: the varint, the limits and the
-- response chunks. A stream is the bytes that it still gives and how it ends. The snappy codec is a
-- parameter, `Snappy`.
pub mod Varint
pub mod Limits
pub mod RoundTrip
pub mod Stored
pub mod Body
pub mod Request
mod Runs
use raidan_sdk.Prelude.{
  ℕ, zero, suc, ◌+◌, ◌-◌, ◌*◌, ◌/◌, ◌%◌, ◌^◌, bit_and, bit_or, Bool, true, false, ◌&&◌, ◌||◌, not,
  Option, none, some, List, [], ◌∷◌, ◌++◌, Bytes, length, take, drop, ltb, ◌==◌, if◌then◌else◌,
}
use raidan_sdk.Prelude.Result.{Result, ok, err}
use raidan_sdk.Uvarint.{append_uvarint, shl64}

abbrev pub code_success : ℕ
code_success = 0

abbrev pub context_bytes_len : ℕ
context_bytes_len = 4

abbrev pub max_payload_size : ℕ
max_payload_size = 10 * 1024 * 1024

abbrev pub max_total_response_size : ℕ
max_total_response_size = 64 * 1024 * 1024

abbrev pub max_response_chunks : ℕ
max_response_chunks = 1024

-- `unexpected_eof` is `io.ErrUnexpectedEOF`, which is not `io.EOF`.
pub data StreamError : Type 0 where
  eof unexpected_eof broken : StreamError

pub data VarintError : Type 0 where
  varint_read : StreamError → VarintError
  varint_overflow varint_too_long : VarintError

-- `value` and `shift` are what `i` bytes gave; the first argument is the rounds left.
unfoldable pub varint_rounds : ℕ → ℕ → ℕ → ℕ → StreamError → Bytes → Result VarintError ℕ × Bytes
varint_rounds zero i value shift ends b = (err varint_too_long, b)
varint_rounds (suc k) i value shift ends [] = (err (varint_read ends), [])
varint_rounds (suc k) i value shift ends (b ∷ bs) =
    let more =
      varint_rounds k (i + 1) (bit_or value (shl64 (bit_and b 0x7f) shift)) (shift + 7) ends bs in
    if ltb b 0x80
    then (if i == 9 && ltb 1 b
        then (err varint_overflow, bs)
        else (ok (bit_or value (shl64 b shift)), bs))
    else more

unfoldable pub read_consensus_uvarint : StreamError → Bytes → Result VarintError ℕ × Bytes
read_consensus_uvarint ends b = varint_rounds 10 0 0 0 ends b

-- `none` stands for both errors. `math.MaxUint64` is 2^64 - 1 and `math.MaxInt64` is 2^63 - 1.
unfoldable pub max_compressed_len : ℕ → Option ℕ
max_compressed_len n =
    if ltb (2 ^ 64 - 1 - 32) n || ltb (2 ^ 64 - 1 - n / 6) ((n + 32) % 2 ^ 64)
    then none
    else let limit = (32 + n + n / 6) % 2 ^ 64 in
      if ltb (2 ^ 63 - 1) limit then none else some limit

pub record ResponseChunk : Type 0 where
  pub code : ℕ
  pub context : Bytes
  pub payload : Bytes

pub record ResponseReader : Type 0 where
  pub bytes : Bytes
  pub ends : StreamError
  pub has_context : Bool
  pub max_payload : ℕ
  pub max_total : ℕ
  pub max_chunks : ℕ
  pub total : ℕ
  pub chunks : ℕ

pub data NextError : Type 0 where
  end_of_stream : NextError
  code_read context_read payload_read ceiling_check : StreamError → NextError
  length_read : VarintError → NextError
  too_many_chunks payload_too_long total_too_long no_memory_index no_compressed_limit : NextError

pub data NewReaderError : Type 0 where
  bad_max_payload bad_max_total bad_max_chunks zero_limit : NewReaderError

-- The first case of the source, a nil reader, is no value here.
unfoldable pub new_response_reader :
    Bytes → StreamError → Bool → ℕ → ℕ → ℕ → Result NewReaderError ResponseReader
new_response_reader bytes ends has_context max_payload max_total max_chunks =
    if ltb max_payload_size max_payload
    then err bad_max_payload
    else if ltb max_total_response_size max_total
    then err bad_max_total
    else if max_chunks == 0 || ltb max_response_chunks max_chunks
    then err bad_max_chunks
    else if max_payload == 0 || max_total == 0
    then err zero_limit
    else ok (record {
      bytes = bytes;
      ends = ends;
      has_context = has_context;
      max_payload = max_payload;
      max_total = max_total;
      max_chunks = max_chunks;
      total = 0;
      chunks = 0;
    })

-- The framed snappy codec. `compress` is what the buffered writer emits for a payload. `read` is
-- `io.ReadFull` of a payload of the given length through a snappy reader: over the bytes that the
-- limited reader gives, and how they end, the payload or the error, and the count of bytes consumed.
pub record Snappy : Type 0 where
  pub compress : Bytes → Bytes
  pub read : Bytes → StreamError → ℕ → Result StreamError Bytes × ℕ

-- `io.ReadFull` of `n` bytes, n > 0: what a stream of fewer bytes reports.
abbrev pub short_read : Bytes → StreamError → StreamError
short_read [] e = e
short_read (b ∷ bs) eof = unexpected_eof
short_read (b ∷ bs) e = e

-- `io.LimitReader` reports EOF once the limit is used up.
abbrev pub limited_end : ℕ → Bytes → StreamError → StreamError
limited_end limit b ends = if ltb (length b) limit then ends else eof

abbrev end_error : StreamError → NextError
end_error eof = end_of_stream
end_error e = code_read e

-- `Peek(1)` at the ceiling of chunks.
unfoldable pub at_ceiling : Bytes → StreamError → NextError
at_ceiling [] eof = end_of_stream
at_ceiling [] e = ceiling_check e
at_ceiling (b ∷ bs) e = too_many_chunks

module _ (snappy : Snappy) where
  abbrev pub finish_payload :
      ResponseReader
      → ℕ
      → Bytes
      → Result StreamError Bytes × ℕ
      → Result NextError ResponseChunk × ResponseReader
  finish_payload r code ctx (ok payload, used) = (
    ok (record { code = code; context = ctx; payload = payload }),
    record r { bytes = drop used r.bytes },
  )
  finish_payload r code ctx (err e, used) =
      (err (payload_read e), record r { bytes = drop used r.bytes })

  abbrev pub read_payload :
      ResponseReader → ℕ → Bytes → ℕ → Option ℕ → Result NextError ResponseChunk × ResponseReader
  read_payload r code ctx len none = (err no_compressed_limit, r)
  read_payload r code ctx len (some limit) =
      finish_payload r code ctx
        (snappy.read (take limit r.bytes) (limited_end limit r.bytes r.ends) len)

  -- From the checks of the length on. `maxInt()` is 2^63 - 1.
  unfoldable pub accept_length :
      ResponseReader
      → ℕ
      → Bytes
      → Result VarintError ℕ × Bytes
      → Result NextError ResponseChunk × ResponseReader
  accept_length r code ctx (err e, rest) = (err (length_read e), record r { bytes = rest })
  accept_length r code ctx (ok len, rest) =
      if ltb r.max_payload len
      then (err payload_too_long, record r { bytes = rest })
      else if ltb ((r.max_total + 2 ^ 64 - r.total) % 2 ^ 64) len
      then (err total_too_long, record r { bytes = rest })
      else let r' = record r {
        bytes = rest;
        total = (r.total + len) % 2 ^ 64;
        chunks = (r.chunks + 1) % 2 ^ 64;
      } in
        if len == 0
        then (ok (record { code = code; context = ctx; payload = [] }), r')
        else if ltb (2 ^ 63 - 1) len
        then (err no_memory_index, r')
        else read_payload r' code ctx len (max_compressed_len len)

  abbrev pub read_length :
      ResponseReader → ℕ → Bytes → Result NextError ResponseChunk × ResponseReader
  read_length r code ctx = accept_length r code ctx (read_consensus_uvarint r.ends r.bytes)

  abbrev pub read_context :
      ResponseReader → ℕ → Bool → Result NextError ResponseChunk × ResponseReader
  read_context r code true =
      if ltb (length r.bytes) context_bytes_len
      then (err (context_read (short_read r.bytes r.ends)), record r { bytes = [] })
      else read_length (record r { bytes = drop context_bytes_len r.bytes }) code
          (take context_bytes_len r.bytes)
  read_context r code false = read_length r code []

  abbrev pub read_code : ResponseReader → Bytes → Result NextError ResponseChunk × ResponseReader
  read_code r [] = (err (end_error r.ends), r)
  read_code r (code ∷ rest) =
      read_context (record r { bytes = rest }) code (code == code_success && r.has_context)

  -- `Next` of `ResponseReader`: the chunk or the error, and the reader after it.
  unfoldable pub next : ResponseReader → Result NextError ResponseChunk × ResponseReader
  next r =
      if r.chunks == r.max_chunks then (err (at_ceiling r.bytes r.ends), r) else read_code r r.bytes

  -- The bytes of `WriteSSZSnappy` and `RawSSZSnappy`.
  unfoldable pub raw_ssz_snappy : Bytes → Bytes
  raw_ssz_snappy payload = append_uvarint [] (length payload) ++ snappy.compress payload

  -- `WriteResponseChunk` on a writer that takes every byte; `none` is the refusal of a context of
  -- the wrong length.
  unfoldable pub write_response_chunk : ResponseChunk → Option Bytes
  write_response_chunk c =
      if c.code == code_success
        && not (length c.context == 0)
        && not (length c.context == context_bytes_len)
      then none
      else some (
          c.code
          ∷ ((if c.code == code_success && not (length c.context == 0) then c.context else [])
              ++ raw_ssz_snappy c.payload))

-- `errors.Is(err, io.EOF)`: each wrapping by `%w` keeps the cause.
abbrev pub stream_is_eof : StreamError → Bool
stream_is_eof eof = true
stream_is_eof _ = false

abbrev pub is_eof : NextError → Bool
is_eof end_of_stream = true
is_eof (code_read e) = stream_is_eof e
is_eof (context_read e) = stream_is_eof e
is_eof (payload_read e) = stream_is_eof e
is_eof (ceiling_check e) = stream_is_eof e
is_eof (length_read (varint_read e)) = stream_is_eof e
is_eof _ = false
