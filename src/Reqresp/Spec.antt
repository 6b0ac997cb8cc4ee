-- ===== src/Reqresp/Spec.antt =====
-- reqresp/status.go: the subset of a beacon node's spec that the Status needs, and its hex texts.
pub mod Blobs
mod Runs
use raidan_sdk.Prelude.{
  ℕ, zero, suc, ◌+◌, ◌-◌, ◌*◌, ◌/◌, ◌%◌, Bool, true, false, ◌&&◌, Option, none, some, List, [], ◌∷◌,
  ◌++◌, Bytes, codes, length, ltb, leb, ◌==◌, if◌then◌else◌, bytes_eq,
}
use raidan_sdk.Prelude.Text.{trim_space, parse_uint}

-- An entry of the blob schedule.
pub record BlobEntry : Type 0 where
  pub epoch : ℕ
  pub max_blobs : ℕ

pub record Spec : Type 0 where
  pub values : List (Bytes × Bytes)
  pub schedule : List BlobEntry

-- A value of the spec's JSON: a text, a list of epochs and limits, or anything else.
pub data SpecValue : Type 0 where
  text : Bytes → SpecValue
  entries : List (Bytes × Bytes) → SpecValue
  other_value : SpecValue

unfoldable pub find_value : List (Bytes × Bytes) → Bytes → Option Bytes
find_value [] key = none
find_value ((k, v) ∷ vs) key = if bytes_eq k key then some v else find_value vs key

abbrev parse_found : Option Bytes → Option ℕ
parse_found none = none
parse_found (some raw) = parse_uint (trim_space raw)

-- `consensusSpec.uint`.
unfoldable pub spec_uint : Spec → Bytes → Option ℕ
spec_uint c key = parse_found (find_value c.values key)

-- An entry whose two numbers parse.
abbrev entry_onto : Option ℕ → Option ℕ → List BlobEntry → List BlobEntry
entry_onto (some epoch) (some max_blobs) es = record { epoch = epoch; max_blobs = max_blobs } ∷ es
entry_onto _ _ es = es

unfoldable pub parsed_entries : List (Bytes × Bytes) → List BlobEntry
parsed_entries [] = []
parsed_entries ((epoch, max_blobs) ∷ es) =
    entry_onto (parse_uint (trim_space epoch)) (parse_uint (trim_space max_blobs))
      (parsed_entries es)

-- One key of the spec; there is one of each name.
abbrev with_value : Bytes → SpecValue → Spec → Spec
with_value key (text t) c = record c { values = (key, t) ∷ c.values }
with_value key (entries es) c =
    if bytes_eq key (codes "BLOB_SCHEDULE")
    then record c { schedule = parsed_entries es ++ c.schedule }
    else c
with_value key other_value c = c

unfoldable pub consensus_config : List (Bytes × SpecValue) → Spec
consensus_config [] = record { values = []; schedule = [] }
consensus_config ((key, v) ∷ vs) = with_value key v (consensus_config vs)

-- The loop of `blobParameters`.
abbrev pub better : ℕ → BlobEntry → Option BlobEntry → Option BlobEntry
better epoch e none = if leb e.epoch epoch then some e else none
better epoch e (some best) =
    if leb e.epoch epoch && ltb best.epoch e.epoch then some e else some best

unfoldable pub newest_entry : ℕ → Option BlobEntry → List BlobEntry → Option BlobEntry
newest_entry epoch best [] = best
newest_entry epoch best (e ∷ es) = newest_entry epoch (better epoch e best) es

abbrev pub or_zero : Option ℕ → ℕ
or_zero none = 0
or_zero (some n) = n

abbrev pub on_newest : Spec → Option BlobEntry → ℕ × ℕ
on_newest c (some best) = (best.epoch, best.max_blobs)
on_newest c none = (
  or_zero (spec_uint c (codes "ELECTRA_FORK_EPOCH")),
  or_zero (spec_uint c (codes "MAX_BLOBS_PER_BLOCK_ELECTRA")),
)

unfoldable pub blob_parameters : Spec → ℕ → ℕ × ℕ
blob_parameters c epoch = on_newest c (newest_entry epoch none c.schedule)

-- `hex.DecodeString`.
unfoldable pub hex_value : ℕ → Option ℕ
hex_value c =
    if leb 48 c && leb c 57
    then some (c - 48)
    else if leb 97 c && leb c 102
    then some (c - 87)
    else if leb 65 c && leb c 70
    then some (c - 55)
    else none

abbrev byte_onto : Option ℕ → Option ℕ → Option Bytes → Option Bytes
byte_onto (some h) (some l) (some bs) = some ((h * 16 + l) ∷ bs)
byte_onto _ _ _ = none

unfoldable pub hex_decode : Bytes → Option Bytes
hex_decode [] = some []
hex_decode (c ∷ []) = none
hex_decode (c ∷ d ∷ s) = byte_onto (hex_value c) (hex_value d) (hex_decode s)
