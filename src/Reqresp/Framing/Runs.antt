-- ===== src/Reqresp/Framing/Runs.antt =====
-- Runs of the framing, over the codec that stores its input as it is.
use raidan_sdk.Prelude.{
  ℕ, ◌+◌, ◌/◌, ◌^◌, true, none, some, [], ◌∷◌, ◌++◌, Bytes, ltb, if◌then◌else◌, ◌≡◌, ◌↔◌, drop,
  refl, arith, Option, take, length,
}
use raidan_sdk.Prelude.Result.{ok}
use raidan_sdk.Uvarint.{append_uvarint, groups, uvarint, value}
use raidan_sdk.Reqresp.Framing.{
  eof, ResponseChunk, ResponseReader, new_response_reader, next, write_response_chunk,
  raw_ssz_snappy, read_consensus_uvarint, max_compressed_len,
}
use raidan_sdk.Reqresp.Framing.Varint.{max_compressed_len_exact, read_consensus_uvarint-uvarint}
use raidan_sdk.Reqresp.Framing.Limits.{IsBounded, Advances, next-Advances}
use raidan_sdk.Reqresp.Framing.RoundTrip.{after, next-write_response_chunk}
use raidan_sdk.Reqresp.Framing.Body.{
  write_full, write_full_rounds, Completes, write_full-Completes, read_ssz_snappy,
}
use raidan_sdk.Reqresp.Framing.Request.{read_ssz_snappy-raw_ssz_snappy}
use raidan_sdk.Reqresp.Framing.Stored.{stored, stored_laws}

abbrev chunk : ResponseChunk
chunk = record { code = 0; context = 1 ∷ 2 ∷ 3 ∷ 4 ∷ []; payload = 9 ∷ 8 ∷ 7 ∷ [] }

abbrev wire : Bytes
wire = 0 ∷ 1 ∷ 2 ∷ 3 ∷ 4 ∷ 3 ∷ 9 ∷ 8 ∷ 7 ∷ []

abbrev reader : ResponseReader
reader = record {
  bytes = wire ++ (5 ∷ []);
  ends = eof;
  has_context = true;
  max_payload = 100;
  max_total = 200;
  max_chunks = 4;
  total = 0;
  chunks = 0;
}

abbrev small_total : ResponseReader
small_total = record reader { max_total = 2 }

makes_reader : new_response_reader (wire ++ (5 ∷ [])) eof true 100 200 4 ≡ ok reader
unfolding new_response_reader
makes_reader = refl

writes : write_response_chunk stored chunk ≡ some wire
unfolding write_response_chunk raw_ssz_snappy append_uvarint groups
writes = refl

reader-IsBounded : IsBounded reader
reader-IsBounded = record {
  total_bound = omega arith;
  chunks_bound = omega arith;
  payload_ceiling = omega arith;
  total_ceiling = omega arith;
  chunks_ceiling = omega arith;
}

max_compressed_len_exact_example :
    max_compressed_len 600
    ≡ (if ltb (32 + 600 + 600 / 6) (2 ^ 63) then some (32 + 600 + 600 / 6) else none)
max_compressed_len_exact_example = max_compressed_len_exact 600 (omega arith)

next-Advances_example : Advances reader (next stored reader)
next-Advances_example = next-Advances stored stored_laws reader reader-IsBounded

next-write_response_chunk_example : next stored reader ≡ (ok chunk, after reader chunk (5 ∷ []))
next-write_response_chunk_example =
    next-write_response_chunk stored stored_laws reader chunk wire (5 ∷ []) reader-IsBounded
      (record {
        context_expected = refl;
        payload_fits = omega arith;
        total_fits = omega arith;
        chunk_fits = omega arith;
      })
      writes refl

-- 300 and what follows.
abbrev two_bytes : Bytes
two_bytes = 0xac ∷ 2 ∷ 7 ∷ []

read_consensus_uvarint-uvarint_example :
    (read_consensus_uvarint eof two_bytes ≡ (ok 300, 7 ∷ []))
    ↔ ((n : ℕ) × (uvarint two_bytes ≡ value 300 n) × (drop n two_bytes ≡ 7 ∷ []))
read_consensus_uvarint-uvarint_example = read_consensus_uvarint-uvarint eof two_bytes (7 ∷ []) 300

-- A writer that takes two bytes a call.
abbrev by_twos : Bytes → ℕ × Option ℕ
by_twos b = (length (take 2 b), none)

takes_all : (write_full by_twos (1 ∷ 2 ∷ 3 ∷ [])).wire ≡ 1 ∷ 2 ∷ 3 ∷ []
unfolding write_full write_full_rounds
takes_all = refl

write_full-Completes_example :
    Completes
      (1 ∷ 2 ∷ 3 ∷ [])
      (write_full by_twos (1 ∷ 2 ∷ 3 ∷ [])).wire
      (write_full by_twos (1 ∷ 2 ∷ 3 ∷ [])).error
write_full-Completes_example = write_full-Completes by_twos (1 ∷ 2 ∷ 3 ∷ [])

read_ssz_snappy-raw_ssz_snappy_example :
    read_ssz_snappy stored eof 100 (raw_ssz_snappy stored (9 ∷ 8 ∷ []) ++ (5 ∷ []))
    ≡ ok (9 ∷ 8 ∷ [])
read_ssz_snappy-raw_ssz_snappy_example =
    read_ssz_snappy-raw_ssz_snappy stored stored_laws eof 100 (9 ∷ 8 ∷ []) (5 ∷ []) (omega arith)
      (omega arith) (omega arith)
