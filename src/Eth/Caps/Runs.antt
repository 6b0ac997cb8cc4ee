-- ===== src/Eth/Caps/Runs.antt =====
-- Runs of the capability negotiation.
use raidan_sdk.Prelude.{none, some, List, [], ◌∷◌, ◌≡◌, refl}
use raidan_sdk.Prelude.Result.{ok}
use raidan_sdk.Eth.Caps.{
  Cap, Config, has_cap, eth, snap, wit, supported_capability, validate, validate_capabilities,
  protocol_length, unsupported_local, offset_from, capability_offset, capability_protocol_length,
  negotiated_capabilities, agreed_versions, sort_names, insert_name, set_version, version_of,
}
use raidan_sdk.Eth.Caps.Negotiation.{
  Ascending, greatest_common, negotiated_capabilities_greatest, negotiated_capabilities-Ascending,
}

-- A client of ETH/69 with SNAP/1 and WIT/1.
abbrev ours : List Cap
ours =
    record { name = wit; version = 1 }
    ∷ record { name = eth; version = 69 }
    ∷ record { name = eth; version = 68 }
    ∷ record { name = snap; version = 1 }
    ∷ []

-- A peer of ETH/68 to 70, SNAP/1 and WIT/1.
abbrev theirs : List Cap
theirs =
    record { name = snap; version = 1 }
    ∷ record { name = eth; version = 68 }
    ∷ record { name = eth; version = 69 }
    ∷ record { name = eth; version = 70 }
    ∷ record { name = wit; version = 1 }
    ∷ []

abbrev agreed : List Cap
agreed =
    record { name = eth; version = 69 }
    ∷ record { name = snap; version = 1 }
    ∷ record { name = wit; version = 1 }
    ∷ []

agrees : negotiated_capabilities ours theirs ≡ ok agreed
unfolding negotiated_capabilities unsupported_local supported_capability agreed_versions sort_names
    insert_name set_version version_of has_cap
agrees = refl

wit_starts : capability_offset agreed wit ≡ ok (some (42, 1))
unfolding capability_offset offset_from capability_protocol_length protocol_length
wit_starts = refl

snap_starts : capability_offset agreed snap ≡ ok (some (34, 1))
unfolding capability_offset offset_from capability_protocol_length protocol_length
snap_starts = refl

snap_length : capability_protocol_length (record { name = snap; version = 1 }) ≡ some 8
unfolding capability_protocol_length protocol_length
snap_length = refl

with_snap : Config
with_snap = record { max_version = 72; snap_version = 2; exact = [] }

with_snap_valid : validate with_snap ≡ none
unfolding validate validate_capabilities with_snap
with_snap_valid = refl

negotiated_capabilities_greatest_example : version_of agreed eth ≡ greatest_common ours theirs eth
negotiated_capabilities_greatest_example =
    negotiated_capabilities_greatest ours theirs agreed eth agrees

negotiated_capabilities-Ascending_example : Ascending agreed
negotiated_capabilities-Ascending_example =
    negotiated_capabilities-Ascending ours theirs agreed agrees
