-- ===== src/Eth/Dial/Runs.antt =====
-- Runs of a dial.
use raidan_sdk.Prelude.{ℕ, Option, none, some, List, [], ◌∷◌, replicate, ◌≡◌, refl}
use raidan_sdk.Prelude.Result.{ok}
use raidan_sdk.Rpc.ForkId.{ForkId}
use raidan_sdk.Eth.Caps.{
  Cap, Config, eth, validate, validate_capabilities, capabilities, eth_capabilities,
  eth_capabilities_from, has_cap, supported_capability, unsupported_local, offset_from,
  capability_offset, capability_protocol_length, negotiated_capabilities, agreed_versions,
  sort_names, insert_name, set_version, version_of, protocol_length,
}
use raidan_sdk.Eth.Conn.{Conn, fresh_conn, negotiate}
use raidan_sdk.Eth.Dial.{
  Calls, hello, status, status_ping, raw_dial, read_status_loop, dial_with_key,
}
use raidan_sdk.Eth.Dial.Retries.{Retries, dial_with_key-Retries}

abbrev ours : ForkId
ours = record { hash = replicate 4 1; next = 0 }

abbrev theirs : ForkId
theirs = record { hash = replicate 4 2; next = 0 }

abbrev peer_caps : List Cap
peer_caps = record { name = eth; version = 68 } ∷ []

-- A peer that pings and then sends its Status; `o` is the error of its validation.
abbrev calls : Option ℕ → Calls ℕ
calls o = record {
  rlpx_error = none;
  hello_deadline_error = none;
  hello_encode_error = none;
  hello_write_error = none;
  hello_reply = hello none peer_caps;
  hello_clear_error = none;
  status_encode_error = none;
  status_deadline_error = none;
  status_events = status_ping none ∷ status theirs o ∷ [];
  status_clear_error = none;
  status_write_error = none;
}

-- The peer's Status is accepted, and then ours cannot be written.
abbrev unwritten : Calls ℕ
unwritten = record (calls none) { status_write_error = some 9 }

abbrev config : Config
config = record { max_version = 68; snap_version = 0; exact = [] }

abbrev conn : Conn ℕ
conn = fresh_conn 16 68 0

connects : raw_dial peer_caps (calls none) ≡ (ok conn, theirs)
unfolding raw_dial read_status_loop negotiate negotiated_capabilities unsupported_local
    supported_capability agreed_versions sort_names insert_name set_version version_of has_cap
    capability_offset offset_from capability_protocol_length protocol_length
connects = refl

-- A failure behind the peer's Status, though it is no rejection of a fork ID, leads to a second dial.
retries_behind_status :
    (dial_with_key config (λ id. unwritten) (λ id. calls none) none (ok ours)).presented
    ≡ ours ∷ theirs ∷ []
unfolding dial_with_key validate validate_capabilities capabilities eth_capabilities
    eth_capabilities_from raw_dial read_status_loop negotiate negotiated_capabilities
    unsupported_local supported_capability agreed_versions sort_names insert_name set_version
    version_of has_cap capability_offset offset_from capability_protocol_length protocol_length
retries_behind_status = refl

dial_with_key-Retries_example :
    Retries
      (λ id. unwritten)
      (ok ours)
      (dial_with_key config (λ id. unwritten) (λ id. calls none) none (ok ours)).presented
dial_with_key-Retries_example =
    dial_with_key-Retries config (λ id. unwritten) (λ id. calls none) none (ok ours)
