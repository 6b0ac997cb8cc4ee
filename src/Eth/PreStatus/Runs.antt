-- ===== src/Eth/PreStatus/Runs.antt =====
-- Runs of the dials before and behind the Status exchange, over a codec that writes nothing.
use raidan_sdk.Prelude.{ℕ, true, none, some, [], ◌∷◌, ◌≡◌, refl}
use raidan_sdk.Prelude.Result.{ok, err}
use raidan_sdk.Rlpx.Disconnect.{RlpStream}
use raidan_sdk.Eth.Caps.{
  eth, validate, validate_capabilities, capabilities, eth_capabilities, eth_capabilities_from,
  has_cap, supported_capability, unsupported_local, offset_from, capability_offset,
  capability_protocol_length, negotiated_capabilities, agreed_versions, sort_names, insert_name,
  set_version, version_of, protocol_length,
}
use raidan_sdk.Eth.Conn.{disc_msg, negotiate}
use raidan_sdk.Eth.Dial.{hello}
use raidan_sdk.Eth.Wire.{received}
use raidan_sdk.Eth.Status.{StatusCodec}
use raidan_sdk.Eth.PreStatus.{
  PreStatusConn, PreCalls, opened, closed, zero_params, pre_status_capabilities, up_to,
  dial_pre_status_with_key, unsupported_capability, dial_ready,
}
use raidan_sdk.Eth.PreStatus.Ready.{IsKept, dial_ready-IsKept}

abbrev codec : StatusCodec ℕ
codec = record {
  encode68 = λ s. ok [];
  decode68 = λ bs. err 0;
  encode_packet = λ s. ok [];
  decode_packet = λ bs. err 0;
}

abbrev stream : RlpStream
stream = record { is_list = λ bs. ok true; decode = λ bs. err []; decode_in_list = λ bs. err [] }

-- A peer that offers ETH up to a version.
abbrev calls : ℕ → PreCalls ℕ
calls version = record {
  node_error = none;
  fetched = none;
  rlpx_error = none;
  hello_deadline_error = none;
  hello_encode_error = none;
  hello_write_error = none;
  hello_reply = hello none (record { name = eth; version = version } ∷ []);
  hello_version = 5;
  clear_error = none;
}

abbrev conn : PreStatusConn
conn = record {
  params = zero_params;
  eth_offset = 16;
  eth_version = 69;
  snap_offset = 0;
  peer_capabilities = record { name = eth; version = 69 } ∷ [];
  snappy = true;
}

dials : dial_pre_status_with_key (up_to 70) (calls 69) ≡ (ok conn, opened)
unfolding dial_pre_status_with_key pre_status_capabilities validate validate_capabilities
    capabilities eth_capabilities eth_capabilities_from negotiate negotiated_capabilities
    unsupported_local supported_capability agreed_versions sort_names insert_name set_version
    version_of has_cap capability_offset offset_from capability_protocol_length protocol_length
dials = refl

older_peer :
    dial_ready codec stream 70 (calls 69) (λ p. none) none []
    ≡ (some (err (unsupported_capability 69 70)), closed)
unfolding dial_ready dial_pre_status_with_key pre_status_capabilities validate validate_capabilities
    capabilities eth_capabilities eth_capabilities_from negotiate negotiated_capabilities
    unsupported_local supported_capability agreed_versions sort_names insert_name set_version
    version_of has_cap capability_offset offset_from capability_protocol_length protocol_length
older_peer = refl

dial_ready-IsKept_example :
    IsKept 69
      (dial_ready codec stream 69 (calls 69) (λ p. none) none (received disc_msg [] none ∷ []))
dial_ready-IsKept_example =
    dial_ready-IsKept codec stream 69 (calls 69) (λ p. none) none (received disc_msg [] none ∷ [])
