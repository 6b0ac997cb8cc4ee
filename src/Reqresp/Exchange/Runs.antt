-- ===== src/Reqresp/Exchange/Runs.antt =====
-- Runs of an exchange.
use raidan_sdk.Prelude.{
  ℕ, zero, suc, true, false, none, some, [], ◌∷◌, Bytes, codes, ◌≡◌, refl, arith,
}
use raidan_sdk.Prelude.Result.{ok, err}
use raidan_sdk.Reqresp.Framing.{
  eof, ResponseChunk, ResponseReader, new_response_reader, next, accept_length,
  read_consensus_uvarint, varint_rounds, max_compressed_len,
}
use raidan_sdk.Reqresp.Framing.Stored.{stored, stored_laws}
use raidan_sdk.Reqresp.Exchange.{
  RequestOptions, Peer, chunks_read, request, read_chunks, read_more, multi_response_protocol,
  contains,
}
use raidan_sdk.Reqresp.Exchange.Chunks.{Within, request-Within}
use raidan_sdk.Reqresp.Exchange.Truncation.{read_more_cut}
use raidan_sdk.Reqresp.Exchange.Retry.{
  Attempt, Sparing, request_with_retries, request_with_retries-Sparing,
}

abbrev options : RequestOptions
options = record {
  no_body = false;
  raw_body = [];
  has_raw_body = false;
  has_context = false;
  max_payload = 0;
  max_total_payload = 100;
  max_chunks = 4;
  skip_response = false;
}

abbrev chunk : Bytes → ResponseChunk
chunk payload = record { code = 0; context = []; payload = payload }

-- Two chunks, and the code of a third behind which the stream ends.
abbrev peer : Peer Bytes
peer = record {
  open_error = none;
  deadline_error = none;
  before_send_error = none;
  write_error = none;
  close_write_error = none;
  bytes = 0 ∷ 2 ∷ 9 ∷ 8 ∷ 0 ∷ 1 ∷ 7 ∷ 0 ∷ [];
  ends = eof;
}

by_root : Bytes
by_root = codes "/eth2/beacon_chain/req/beacon_blocks_by_root/2/ssz_snappy"

asks_for_many : multi_response_protocol by_root ≡ true
unfolding multi_response_protocol contains by_root
asks_for_many = refl

returns_two :
    (request stored options peer by_root (1 ∷ []) true).result
    ≡ ok (chunk (9 ∷ 8 ∷ []) ∷ chunk (7 ∷ []) ∷ [])
unfolding request new_response_reader read_chunks read_more next accept_length
    read_consensus_uvarint varint_rounds max_compressed_len
returns_two = refl

abbrev cut_reader : ResponseReader
cut_reader = record {
  bytes = 0 ∷ [];
  ends = eof;
  has_context = false;
  max_payload = 100;
  max_total = 100;
  max_chunks = 4;
  total = 3;
  chunks = 2;
}

abbrev refused : Attempt ℕ
refused = record {
  session_error = some (codes "connect consensus peer: refused");
  warmup_error = none;
  exchange = ok 1;
  sent = true;
  sleep_error = none;
}

abbrev timed_out : Attempt ℕ
timed_out = record refused { session_error = none; exchange = err (codes "i/o timeout") }

abbrev attempts : ℕ → Attempt ℕ
attempts zero = refused
attempts (suc n) = timed_out

request-Within_example :
    Within stored stored_laws options peer by_root
      (1 ∷ [])
      (request stored options peer by_root (1 ∷ []) true).result
request-Within_example = request-Within stored stored_laws options peer by_root (1 ∷ []) true

read_more_cut_example : read_more stored 5 cut_reader (chunk [] ∷ []) ≡ chunks_read (chunk [] ∷ [])
read_more_cut_example = read_more_cut stored 4 cut_reader (chunk [] ∷ []) 0 (omega arith) refl refl

request_with_retries-Sparing_example : Sparing 3 (request_with_retries false attempts)
request_with_retries-Sparing_example = request_with_retries-Sparing false attempts
