-- ===== src/Eth/Wire/Runs.antt =====
-- Runs of the waits on the wire.
use raidan_sdk.Prelude.{ℕ, true, false, none, some, List, [], ◌∷◌, Bytes, codes, refl, ◌≡◌, arith}
use raidan_sdk.Prelude.Result.{Result, ok, err}
use raidan_sdk.Rlpx.Disconnect.{RlpStream}
use raidan_sdk.Eth.Caps.{
  Cap, eth, snap, has_cap, supported_capability, unsupported_local, offset_from, capability_offset,
  capability_protocol_length, negotiated_capabilities, agreed_versions, sort_names, insert_name,
  set_version, version_of, protocol_length,
}
use raidan_sdk.Eth.Conn.{Conn, fresh_conn, ping_msg, pong_msg, negotiate}
use raidan_sdk.Eth.Wire.{
  WireRead, received, read_failed, Splits, close_loop, status_loop, request_loop, decode_request_id,
  request_for_response,
}
use raidan_sdk.Eth.Wire.Offset.{status_loop-negotiate}

-- A stream that reads the one byte of a short list, or a lone byte.
abbrev list_byte : Bytes → Result Bytes ℕ
list_byte (h ∷ b ∷ rest) = ok b
list_byte _ = err (codes "EOF")

abbrev stream : RlpStream
stream = record { is_list = λ bs. ok true; decode = λ bs. err []; decode_in_list = list_byte }

abbrev splits : Splits ℕ
splits = record { split_list = λ bs. ok bs; split_uint64 = λ bs. ok 7 }

abbrev chatter : List (WireRead ℕ)
chatter =
    received ping_msg [] none
    ∷ received 24 (1 ∷ []) (some 5)
    ∷ received pong_msg [] none
    ∷ received ping_msg [] none
    ∷ []

requested :
    request_loop stream splits 19 (received ping_msg [] none ∷ received 19 (9 ∷ []) none ∷ [])
    ≡ record { answer = some (ok (7, 9 ∷ [])); pongs = 1 }
unfolding request_loop decode_request_id
requested = refl

timed_out :
    close_loop {E = ℕ} stream (received ping_msg [] none ∷ read_failed 3 true ∷ [])
    ≡ record { answer = some (false, []); pongs = 1 }
unfolding close_loop
timed_out = refl

paired : request_for_response 0x10 ≡ some (0x0f, codes "GetReceipts")
unfolding request_for_response
paired = refl

abbrev local_caps : List Cap
local_caps = record { name = snap; version = 1 } ∷ record { name = eth; version = 68 } ∷ []

abbrev conn : Conn ℕ
conn = fresh_conn 16 68 33

agreed : negotiate local_caps local_caps ≡ ok conn
unfolding negotiate negotiated_capabilities unsupported_local supported_capability agreed_versions
    sort_names insert_name set_version version_of has_cap capability_offset offset_from
    capability_protocol_length protocol_length
agreed = refl

status_loop-negotiate_example :
    status_loop {E = ℕ} stream (received ping_msg [] none ∷ received 16 (1 ∷ []) (some 5) ∷ [])
    ≡ record { answer = some none; pongs = 1 }
status_loop-negotiate_example =
    status_loop-negotiate stream local_caps local_caps conn (received ping_msg [] none ∷ []) []
      (1 ∷ []) (some 5) agreed (((omega arith, (omega arith, tt)), λ e. refl), tt)
