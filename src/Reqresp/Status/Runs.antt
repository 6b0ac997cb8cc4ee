-- ===== src/Reqresp/Status/Runs.antt =====
-- Runs of the Status bodies and of the handshake, with 32 bytes of one value in place of the digests.
use raidan_sdk.Prelude.{
  ℕ, Bool, true, false, some, [], ◌∷◌, ◌++◌, Bytes, codes, length, replicate, ◌≡◌, refl,
}
use raidan_sdk.Prelude.Text.{is_space, trim_left, trim_right, trim_prefix, parse_digits}
use raidan_sdk.Prelude.LittleEndian.{little_endian}
use raidan_sdk.Prelude.Result.{Result, ok, err}
use raidan_sdk.Reqresp.Spec.{
  text, entries, consensus_config, parsed_entries, spec_uint, find_value, blob_parameters,
  newest_entry, hex_decode, hex_value,
}
use raidan_sdk.Reqresp.Framing.{ResponseChunk}
use raidan_sdk.Reqresp.Status.{
  StatusError, Answers, consensus_hex, xor_digest, status_v1, status_v2, consensus_fork_digest,
  status_fields, beacon_status, status_warmup, warmup_failed, response_code, not_requested,
}
use raidan_sdk.Reqresp.Status.Layout.{read_status, beacon_status-read_status}

abbrev digest : Bytes → Bytes
digest bs = replicate 32 (length bs)

abbrev root : Bytes
root = codes "0x000102030405060708090a0b0c0d0e0f000102030405060708090a0b0c0d0e0f"

abbrev answers : Answers ℕ
answers = record {
  fork = ok (codes "0x06000000");
  genesis = ok root;
  header = ok (root, codes "1300");
  finality = ok (root, codes "38");
  spec = ok (
      (codes "FULU_FORK_EPOCH", text (codes "40"))
      ∷ (codes "SLOTS_PER_EPOCH", text (codes "32"))
      ∷ (codes "BLOB_SCHEDULE", entries ((codes "40", codes "9") ∷ []))
      ∷ []);
}

abbrev bodies : Result (StatusError ℕ) (Bytes × Bytes)
bodies = beacon_status digest answers

abbrev root_bytes : Bytes
root_bytes =
    0 ∷ 1 ∷ 2 ∷ 3 ∷ 4 ∷ 5 ∷ 6 ∷ 7 ∷ 8 ∷ 9 ∷ 10 ∷ 11 ∷ 12 ∷ 13 ∷ 14 ∷ 15 ∷ 0 ∷ 1 ∷ 2 ∷ 3 ∷ 4 ∷ 5 ∷ 6
    ∷ 7 ∷ 8 ∷ 9 ∷ 10 ∷ 11 ∷ 12 ∷ 13 ∷ 14 ∷ 15 ∷ []

-- The digests of 64 and of 16 bytes masked with each other.
abbrev body : Bytes
body =
    replicate 4 80
    ++ (root_bytes ++ ((38 ∷ replicate 7 0) ++ (root_bytes ++ (20 ∷ 5 ∷ replicate 6 0))))

builds_bodies : beacon_status digest answers ≡ ok (body, body ++ replicate 8 0)
unfolding beacon_status status_fields consensus_hex little_endian xor_digest status_v1 status_v2
    consensus_fork_digest trim_prefix parse_digits consensus_config parsed_entries spec_uint
    find_value blob_parameters newest_entry hex_decode hex_value trim_right trim_left is_space
builds_bodies = refl

abbrev chunk : ℕ → Result ℕ ResponseChunk
chunk code = ok (record { code = code; context = []; payload = [] })

abbrev refusing : Bool → Result ℕ ResponseChunk
refusing true = err 7
refusing false = chunk 2

-- The peer refuses version 2 and answers version 1 with a code of its own.
falls_back :
    (status_warmup digest (λ (v2 : Bool) (b : Bytes). refusing v2) answers).0
    ≡ some (warmup_failed (not_requested 7) (response_code 2))
unfolding status_warmup
falls_back = rw builds_bodies refl

beacon_status-read_status_example :
    (status_fields digest answers ≡ ok (read_status body))
    × (length body ≡ 84)
    × (body ++ replicate 8 0 ≡ body ++ replicate 8 0)
beacon_status-read_status_example =
    beacon_status-read_status digest (λ bs. refl) answers body (body ++ replicate 8 0) builds_bodies
