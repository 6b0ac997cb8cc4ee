-- ===== src/Wit/Runs.antt =====
-- Runs of WIT.
use raidan_sdk.Prelude.{ℕ, none, some, List, [], ◌∷◌, ◌≡◌, refl}
use raidan_sdk.Prelude.Result.{ok}
use raidan_sdk.Eth.Caps.{
  supported_capability, unsupported_local, offset_from, capability_offset, has_cap,
  capability_protocol_length, negotiated_capabilities, agreed_versions, sort_names, insert_name,
  set_version, version_of, protocol_length,
}
use raidan_sdk.Eth.Conn.{negotiate}
use raidan_sdk.Wit.{WitConn, WitEvent, wit_ping, wit_frame, wit_capabilities, wit_dial, wit_read}

abbrev conn : WitConn
conn = record { offset = 34 }

dials : wit_dial {E = ℕ} wit_capabilities none ≡ ok conn
unfolding wit_dial negotiate negotiated_capabilities unsupported_local supported_capability
    agreed_versions sort_names insert_name set_version version_of has_cap capability_offset
    offset_from capability_protocol_length protocol_length
dials = refl

-- An ETH message, a ping, and a WIT message.
abbrev events : List (WitEvent ℕ)
events = wit_frame 20 (1 ∷ []) ∷ wit_ping none ∷ wit_frame 36 (7 ∷ []) ∷ []

reads_own : wit_read conn events ≡ some (ok (2, 7 ∷ []))
unfolding wit_read
reads_own = refl
