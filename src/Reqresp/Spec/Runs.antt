-- ===== src/Reqresp/Spec/Runs.antt =====
-- Runs over a spec.
use raidan_sdk.Prelude.{none, some, List, [], ◌∷◌, Bytes, codes, ◌≡◌, refl}
use raidan_sdk.Prelude.Text.{is_space, trim_left, trim_right, parse_digits}
use raidan_sdk.Reqresp.Spec.{
  SpecValue, text, entries, other_value, Spec, consensus_config, spec_uint, find_value,
  parsed_entries, blob_parameters, newest_entry, hex_decode, hex_value,
}
use raidan_sdk.Reqresp.Spec.Blobs.{Newest, blob_parameters-Newest}

-- The second entry of the schedule has no number and is left out.
abbrev answer : List (Bytes × SpecValue)
answer =
    (codes "ELECTRA_FORK_EPOCH", text (codes " 5 "))
    ∷ (codes "OTHER", other_value)
    ∷ (
      codes "BLOB_SCHEDULE",
      entries ((codes "20", codes "12") ∷ (codes "x", codes "1") ∷ (codes "10", codes "9") ∷ []),
    )
    ∷ []

reads_the_schedule :
    (consensus_config answer).schedule
    ≡ record { epoch = 20; max_blobs = 12 } ∷ record { epoch = 10; max_blobs = 9 } ∷ []
unfolding consensus_config parsed_entries trim_left trim_right is_space parse_digits
reads_the_schedule = refl

reads_a_number : spec_uint (consensus_config answer) (codes "ELECTRA_FORK_EPOCH") ≡ some 5
unfolding consensus_config parsed_entries spec_uint find_value trim_left trim_right is_space
    parse_digits
reads_a_number = refl

between_the_entries : blob_parameters (consensus_config answer) 15 ≡ (10, 9)
unfolding consensus_config parsed_entries blob_parameters newest_entry trim_left trim_right is_space
    parse_digits
between_the_entries = refl

before_the_entries : blob_parameters (consensus_config answer) 7 ≡ (5, 0)
unfolding consensus_config parsed_entries blob_parameters newest_entry spec_uint find_value
    trim_left trim_right is_space parse_digits
before_the_entries = refl

reads_hex : hex_decode (codes "0aF1") ≡ some (10 ∷ 241 ∷ [])
unfolding hex_decode hex_value
reads_hex = refl

odd_hex : hex_decode (codes "0aF") ≡ none
unfolding hex_decode hex_value
odd_hex = refl

abbrev spec : Spec
spec = consensus_config answer

blob_parameters-Newest_example : Newest spec 15 (blob_parameters spec 15)
blob_parameters-Newest_example = blob_parameters-Newest spec 15
