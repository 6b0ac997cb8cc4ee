-- ===== src/Eth/Conn/Runs.antt =====
-- Runs of the connection.
use raidan_sdk.Prelude.{ℕ, ◌<◌, false, none, some, List, [], ◌∷◌, codes, ◌≡◌, refl, arith}
use raidan_sdk.Prelude.Result.{ok}
use raidan_sdk.Eth.Caps.{
  Cap, eth, snap, has_cap, supported_capability, unsupported_local, offset_from, capability_offset,
  capability_protocol_length, negotiated_capabilities, agreed_versions, sort_names, insert_name,
  set_version, version_of, protocol_length,
}
use raidan_sdk.Eth.Conn.{
  ConnMsg, Conn, ping, message, disconnect, fresh_conn, negotiate, send_raw, send_snap_raw,
  observed, read_round, queue_message, set_disconnect_reason,
}
use raidan_sdk.Eth.Conn.Reader.{Action, reads, takes, run, start, through, run-arriving}
use raidan_sdk.Eth.Conn.Codes.{send_raw-send_snap_raw}

abbrev offered : List Cap
offered = record { name = eth; version = 70 } ∷ record { name = snap; version = 1 } ∷ []

abbrev conn : Conn ℕ
conn = fresh_conn 16 70 34

negotiates : negotiate offered offered ≡ ok conn
unfolding negotiate negotiated_capabilities unsupported_local supported_capability agreed_versions
    sort_names insert_name set_version version_of has_cap capability_offset offset_from
    capability_protocol_length protocol_length
negotiates = refl

eth_length : protocol_length 70 ≡ some 18
unfolding protocol_length
eth_length = refl

sends_snap : send_snap_raw conn 3 (7 ∷ []) ≡ some (observed snap 3 (7 ∷ []), (37, 7 ∷ []))
unfolding send_snap_raw
sends_snap = refl

abbrev msg : ℕ → ConnMsg
msg code = record { code = code; body = code ∷ [] }

-- Two messages around a ping, the first of which is taken at once.
abbrev actions : List (Action ℕ)
actions = reads (message (msg 18)) ∷ takes ∷ reads (ping none) ∷ reads (message (msg 20)) ∷ []

still_alive : (run actions (start conn)).conn.dead ≡ false
unfolding read_round queue_message
still_alive = refl

-- A disconnect ends the reader, and what is queued is still there.
stops :
    (run
      (reads (message (msg 18)) ∷ reads (disconnect (codes "bye")) ∷ reads (message (msg 19)) ∷ [])
      (start conn)).conn.msgs
    ≡ msg 18 ∷ []
unfolding read_round queue_message set_disconnect_reason
stops = refl

run-arriving_example : through (run actions (start conn)) ≡ msg 18 ∷ msg 20 ∷ []
run-arriving_example = run-arriving actions conn refl refl still_alive

send_raw-send_snap_raw_example : (send_raw conn 17 (5 ∷ [])).1.0 < 37
send_raw-send_snap_raw_example =
    send_raw-send_snap_raw offered offered conn 18 17 3 37 (5 ∷ []) (7 ∷ []) (7 ∷ [])
      (observed snap 3 (7 ∷ [])) (omega arith) negotiates eth_length (omega arith) (omega arith)
      sends_snap
