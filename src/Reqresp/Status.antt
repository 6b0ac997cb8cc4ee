-- ===== src/Reqresp/Status.antt =====
-- reqresp/status.go: the Status bodies built from a beacon node's answers, the fork digest in them, and
-- the handshake that tries version 2 and then version 1. The answers to the HTTP requests, decoded, and
-- SHA-256 are parameters.
pub mod Sizes
pub mod Layout
mod Runs
use raidan_sdk.Prelude.{
  ℕ, zero, suc, ◌+◌, ◌-◌, ◌*◌, ◌/◌, ◌%◌, ◌^◌, bit_xor, Bool, true, false, not, ◌&&◌, ◌||◌, Option,
  none, some, List, [], ◌∷◌, ◌++◌, Bytes, codes, length, take, replicate, ltb, leb, ◌==◌,
  if◌then◌else◌, bytes_eq,
}
use raidan_sdk.Prelude.Text.{trim_space, trim_prefix, parse_uint}
use raidan_sdk.Prelude.LittleEndian.{little_endian}
use raidan_sdk.Prelude.Result.{Result, ok, err, ◌>>=◌}
use raidan_sdk.Reqresp.Spec.{
  SpecValue, Spec, spec_uint, consensus_config, blob_parameters, hex_decode,
}
use raidan_sdk.Reqresp.Framing.{ResponseChunk, code_success}

pub data StatusError (E : Type 0) : Type 0 where
  not_fetched not_requested : E → StatusError E
  bad_hex bad_number no_slots_per_epoch : StatusError E
  wrong_size response_code : ℕ → StatusError E
  warmup_failed : StatusError E → StatusError E → StatusError E

module _ {E : Type 0} where
  abbrev sized : ℕ → Option Bytes → Result (StatusError E) Bytes
  sized want none = err bad_hex
  sized want (some decoded) =
      if length decoded == want then ok decoded else err (wrong_size (length decoded))

  unfoldable pub consensus_hex : Bytes → ℕ → Result (StatusError E) Bytes
  consensus_hex value want = sized want (hex_decode (trim_prefix value (codes "0x")))

  abbrev numbered : Option ℕ → Result (StatusError E) ℕ
  numbered none = err bad_number
  numbered (some n) = ok n

  abbrev fetched : {A : Type 0} → Result E A → Result (StatusError E) A
  fetched (ok a) = ok a
  fetched (err e) = err (not_fetched e)

unfoldable pub xor_digest : Bytes → Bytes → Bytes
xor_digest (a ∷ as') (b ∷ bs) = bit_xor a b ∷ xor_digest as' bs
xor_digest _ _ = []

-- The fields of a Status.
pub record StatusFields : Type 0 where
  pub fork_digest : Bytes
  pub finalized_root : Bytes
  pub finalized_epoch : ℕ
  pub head_root : Bytes
  pub head_slot : ℕ

-- What the beacon node answered: the version of the fork, the root of the genesis, the root and the slot of
-- the head, the root and the epoch of the finality, and the spec.
pub record Answers (E : Type 0) : Type 0 where
  pub fork : Result E Bytes
  pub genesis : Result E Bytes
  pub header : Result E (Bytes × Bytes)
  pub finality : Result E (Bytes × Bytes)
  pub spec : Result E (List (Bytes × SpecValue))

module _ (sha256 : Bytes → Bytes) where
  -- The root of the fork data: the version filled up to 32 bytes, and the genesis root.
  abbrev pub fork_data_root : Bytes → Bytes → Bytes
  fork_data_root version root =
      sha256
        ((version ++ replicate (32 - length version) 0) ++ (root ++ replicate (32 - length root) 0))

  -- The digest masked with the hash of the blob parameters.
  abbrev pub masked_digest : Bytes → ℕ × ℕ → Bytes
  masked_digest base (blob_epoch, max_blobs) =
      xor_digest (take 4 base) (sha256 (little_endian 8 blob_epoch ++ little_endian 8 max_blobs))

-- The 84 bytes of version 1, and the 92 of version 2 with zeros at the end.
unfoldable pub status_v1 : StatusFields → Bytes
status_v1 f =
    f.fork_digest
    ++ (f.finalized_root
        ++ (little_endian 8 f.finalized_epoch ++ (f.head_root ++ little_endian 8 f.head_slot)))

unfoldable pub status_v2 : StatusFields → Bytes
status_v2 f = status_v1 f ++ replicate 8 0

module _ {E : Type 0} (sha256 : Bytes → Bytes) where
  abbrev on_slots : Bytes → Spec → ℕ → ℕ → Option ℕ → Result (StatusError E) Bytes
  on_slots base c fulu head_slot none = err no_slots_per_epoch
  on_slots base c fulu head_slot (some zero) = err no_slots_per_epoch
  on_slots base c fulu head_slot (some (suc slots)) =
      if ltb (head_slot / suc slots) fulu
      then ok (take 4 base)
      else ok (masked_digest sha256 base (blob_parameters c (head_slot / suc slots)))

  abbrev on_fulu : Bytes → Spec → ℕ → Option ℕ → Result (StatusError E) Bytes
  on_fulu base c head_slot none = ok (take 4 base)
  on_fulu base c head_slot (some fulu) =
      on_slots base c fulu head_slot (spec_uint c (codes "SLOTS_PER_EPOCH"))

  abbrev on_spec : Bytes → ℕ → Result E (List (Bytes × SpecValue)) → Result (StatusError E) Bytes
  on_spec base head_slot (err e) = ok (take 4 base)
  on_spec base head_slot (ok vs) =
      on_fulu base (consensus_config vs) head_slot
        (spec_uint (consensus_config vs) (codes "FULU_FORK_EPOCH"))

  unfoldable pub consensus_fork_digest :
      Result E (List (Bytes × SpecValue)) → Bytes → Bytes → ℕ → Result (StatusError E) Bytes
  consensus_fork_digest spec version root head_slot =
      on_spec (fork_data_root sha256 version root) head_slot spec

  -- The answers are taken in the order of the requests, each with its checks.
  unfoldable pub status_fields : Answers E → Result (StatusError E) StatusFields
  status_fields a = fetched a.fork >>= λ fork. consensus_hex fork 4 >>= λ version.
      fetched a.genesis >>= λ genesis. consensus_hex genesis 32 >>= λ genesis_root.
      fetched a.header >>= λ header. consensus_hex header.0 32 >>= λ head_root.
      numbered (parse_uint header.1) >>= λ head_slot. fetched a.finality >>= λ finality.
      consensus_hex finality.0 32 >>= λ finalized_root.
      numbered (parse_uint finality.1) >>= λ finalized_epoch.
      consensus_fork_digest a.spec version genesis_root head_slot >>= λ digest. ok (record {
        fork_digest = digest;
        finalized_root = finalized_root;
        finalized_epoch = finalized_epoch;
        head_root = head_root;
        head_slot = head_slot;
      })

  unfoldable pub beacon_status : Answers E → Result (StatusError E) (Bytes × Bytes)
  beacon_status a = status_fields a >>= λ f. ok (status_v1 f, status_v2 f)

  -- The error of one request of the handshake.
  abbrev request_error : Result E ResponseChunk → Option (StatusError E)
  request_error (err e) = some (not_requested e)
  request_error (ok c) = if c.code == code_success then none else some (response_code c.code)

  abbrev pub on_v1 : StatusError E → Option (StatusError E) → Option (StatusError E)
  on_v1 e2 none = none
  on_v1 e2 (some e1) = some (warmup_failed e2 e1)

  -- The second request is made where the first failed; `none` is success. With it come the bodies sent.
  abbrev pub on_v2 :
      (Bool → Bytes → Result E ResponseChunk)
      → Bytes
      → Bytes
      → Option (StatusError E)
      → Option (StatusError E) × List (Bool × Bytes)
  on_v2 request v1 v2 none = (none, (true, v2) ∷ [])
  on_v2 request v1 v2 (some e2) =
      (on_v1 e2 (request_error (request false v1)), (true, v2) ∷ (false, v1) ∷ [])

  abbrev pub on_bodies :
      (Bool → Bytes → Result E ResponseChunk)
      → Result (StatusError E) (Bytes × Bytes)
      → Option (StatusError E) × List (Bool × Bytes)
  on_bodies request (err e) = (some e, [])
  on_bodies request (ok (v1, v2)) = on_v2 request v1 v2 (request_error (request true v2))

  -- `request` is asked with whether the protocol is version 2, and with the body.
  unfoldable pub status_warmup :
      (Bool → Bytes → Result E ResponseChunk)
      → Answers E
      → Option (StatusError E) × List (Bool × Bytes)
  status_warmup request a = on_bodies request (beacon_status a)
