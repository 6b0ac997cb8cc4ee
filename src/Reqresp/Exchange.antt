-- ===== src/Reqresp/Exchange.antt =====
-- reqresp/request.go: one exchange on a stream, the loop that reads its chunks, and the retries of
-- the package functions. The libp2p host and the stream are parameters: what each of their calls
-- returned, and the bytes that the peer sends back.
pub mod Chunks
pub mod Retry
pub mod Truncation
mod Runs
use raidan_sdk.Prelude.{
  ℕ, zero, suc, ◌+◌, ◌-◌, Bool, true, false, not, ◌&&◌, ◌||◌, Option, none, some, List, [], ◌∷◌,
  ◌++◌, Bytes, codes, ltb, ◌==◌, if◌then◌else◌, has_prefix,
}
use raidan_sdk.Prelude.Result.{Result, ok, err}
use raidan_sdk.Session.{Write}
use raidan_sdk.Reqresp.Framing.{
  StreamError, ResponseChunk, ResponseReader, NextError, NewReaderError, Snappy, code_success,
  max_payload_size, max_total_response_size, max_response_chunks, new_response_reader, next,
  raw_ssz_snappy, is_eof,
}

pub record RequestOptions : Type 0 where
  pub no_body : Bool
  pub raw_body : Bytes
  pub has_raw_body : Bool
  pub has_context : Bool
  pub max_payload : ℕ
  pub max_total_payload : ℕ
  pub max_chunks : ℕ
  pub skip_response : Bool

-- A zero field takes its default.
abbrev pub or_default : ℕ → ℕ → ℕ
or_default n d = if n == 0 then d else n

-- What the calls on the host and the stream return, `none` for no error. `before_send` is the
-- caller's hook, which does nothing where it is nil.
pub record Peer (E : Type 0) : Type 0 where
  pub open_error : Option E
  pub deadline_error : Option E
  pub before_send_error : Option E
  pub write_error : Option E
  pub close_write_error : Option E
  pub bytes : Bytes
  pub ends : StreamError

pub data RequestError (E : Type 0) : Type 0 where
  open_stream set_deadline before_send write_request close_write : E → RequestError E
  new_reader : NewReaderError → RequestError E
  empty_response : RequestError E
  read_chunk : NextError → RequestError E
  out_of_fuel : RequestError E

-- The outcome of an exchange, with what it did on the way: whether the hook ran without an error,
-- what was reported to the observer, and whether the stream was reset.
pub record Exchange (E : Type 0) : Type 0 where
  pub result : Result (RequestError E) (List ResponseChunk)
  pub sent : Bool
  pub observed : List Write
  pub reset : Bool

-- How the loop over the chunks ends.
pub data Reading : Type 0 where
  chunks_read : List ResponseChunk → Reading
  chunk_failed : NextError → Reading
  no_fuel : Reading

-- `strings.Contains`.
unfoldable pub contains : Bytes → Bytes → Bool
contains [] p = has_prefix [] p
contains (c ∷ s) p = has_prefix (c ∷ s) p || contains s p

unfoldable pub multi_response_protocol : Bytes → Bool
multi_response_protocol proto =
    contains proto (codes "_by_range/") || contains proto (codes "_by_root/")

-- What `Session.Request` hands over of the chunks: the first that is no success, else the first.
abbrev first_failure : List ResponseChunk → Option ResponseChunk
first_failure [] = none
first_failure (c ∷ cs) = if not (c.code == code_success) then some c else first_failure cs

abbrev or_first : List ResponseChunk → Option ResponseChunk → Option ResponseChunk
or_first cs (some c) = some c
or_first [] none = none
or_first (c ∷ cs) none = some c

unfoldable pub select_chunk : List ResponseChunk → Option ResponseChunk
select_chunk cs = or_first cs (first_failure cs)

-- One round of the loop behind the first chunk; `more` is the next round.
abbrev pub on_next :
    (ResponseReader → List ResponseChunk → Reading)
    → List ResponseChunk
    → Result NextError ResponseChunk × ResponseReader
    → Reading
on_next more chunks (ok chunk, r) =
    let rest = more r (chunks ++ (chunk ∷ [])) in
    if not (chunk.code == code_success) then chunks_read (chunks ++ (chunk ∷ [])) else rest
on_next more chunks (err e, r) = if is_eof e then chunks_read chunks else chunk_failed e

module _ (snappy : Snappy) where
  -- The loop stops at the end of the stream, at an error and behind the first chunk whose code is no
  -- success.
  unfoldable pub read_more : ℕ → ResponseReader → List ResponseChunk → Reading
  read_more zero r chunks = no_fuel
  read_more (suc fuel) r chunks = on_next (read_more fuel) chunks (next snappy r)

  -- The reads of `request`: the first chunk, then, if `all` is asked for and it is a success, the
  -- others. Each chunk is counted, so a round more than the ceiling of chunks is enough.
  abbrev pub read_rest : Bool → Result NextError ResponseChunk × ResponseReader → Option Reading
  read_rest all (err e, r) = if is_eof e then none else some (chunk_failed e)
  read_rest all (ok first, r) = some (
      if not all || not (first.code == code_success)
      then chunks_read (first ∷ [])
      else read_more (r.max_chunks + 1) r (first ∷ []))

  unfoldable pub read_chunks : Bool → ResponseReader → Option Reading
  read_chunks all r = read_rest all (next snappy r)

  module _ {E : Type 0} (options : RequestOptions) (peer : Peer E) (proto payload : Bytes) where
    -- The body as the observer sees it.
    abbrev pub captured_body : Bytes
    captured_body =
        if options.no_body
        then []
        else if options.has_raw_body
        then options.raw_body
        else raw_ssz_snappy snappy payload

    abbrev pub report : Write
    report = record {
      protocol = codes "reqresp";
      code = 0;
      protocol_id = proto;
      topic = [];
      payload = captured_body;
      raw = false;
    }

    abbrev pub after_send : Bool → Result (RequestError E) (List ResponseChunk) → Exchange E
    after_send reset result = record {
      result = result;
      sent = true;
      observed = report ∷ [];
      reset = reset;
    }

    abbrev pub from_reading : Option Reading → Exchange E
    from_reading none = after_send false (err empty_response)
    from_reading (some (chunks_read cs)) = after_send false (ok cs)
    from_reading (some (chunk_failed e)) = after_send true (err (read_chunk e))
    from_reading (some no_fuel) = after_send true (err out_of_fuel)

    abbrev pub receive : Bool → Result NewReaderError ResponseReader → Exchange E
    receive all (err e) = after_send true (err (new_reader e))
    receive all (ok r) = from_reading (read_chunks all r)

    abbrev pub on_close_write : Bool → Option E → Exchange E
    on_close_write all (some e) = after_send true (err (close_write e))
    on_close_write all none =
        if options.skip_response
        then after_send false (ok [])
        else receive all (
            new_response_reader peer.bytes peer.ends options.has_context
              (or_default options.max_payload max_payload_size)
              (or_default options.max_total_payload max_total_response_size)
              (or_default options.max_chunks max_response_chunks))

    abbrev pub on_write : Bool → Option E → Exchange E
    on_write all (some e) = after_send true (err (write_request e))
    on_write all none = on_close_write all peer.close_write_error

    abbrev pub unsent : Bool → RequestError E → Exchange E
    unsent reset e = record { result = err e; sent = false; observed = []; reset = reset }

    abbrev pub on_before_send : Bool → Option E → Exchange E
    on_before_send all (some e) = unsent true (before_send e)
    on_before_send all none = on_write all (if options.no_body then none else peer.write_error)

    abbrev pub on_deadline : Bool → Option E → Exchange E
    on_deadline all (some e) = unsent true (set_deadline e)
    on_deadline all none = on_before_send all peer.before_send_error

    abbrev pub on_open : Bool → Option E → Exchange E
    on_open all (some e) = unsent false (open_stream e)
    on_open all none = on_deadline all peer.deadline_error

    -- The method `request`; `all` asks for every chunk.
    unfoldable pub request : Bool → Exchange E
    request all = on_open all peer.open_error
