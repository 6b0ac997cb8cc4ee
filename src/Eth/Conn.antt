-- ===== src/Eth/Conn.antt =====
-- eth/conn.go: the negotiation behind the Hello exchange, what a connection sends, its background
-- reader, and the waits on the queue of messages. The wire and the decoder of a disconnect are
-- parameters: what the wire's reads and writes return comes with each step, and a disconnect comes with
-- its decoded reason. An error of the wire is of a type `E`.
pub mod Reader
pub mod Waits
pub mod Codes
mod Runs
use raidan_sdk.Prelude.{
  ℕ, zero, suc, ◌+◌, ◌%◌, ◌^◌, Bool, true, false, not, ◌&&◌, ◌||◌, Option, none, some, List, [],
  ◌∷◌, ◌++◌, Bytes, codes, length, ltb, ◌==◌, if◌then◌else◌,
}
use raidan_sdk.Prelude.Result.{Result, ok, err}
use raidan_sdk.Session.{Write}
use raidan_sdk.Eth.Caps.{Cap, eth, snap, capability_offset, negotiated_capabilities}

abbrev pub disc_msg : ℕ
disc_msg = 0x01

abbrev pub ping_msg : ℕ
ping_msg = 0x02

abbrev pub pong_msg : ℕ
pong_msg = 0x03

-- The capacity of the queue of messages.
abbrev pub queue_capacity : ℕ
queue_capacity = 256

pub record ConnMsg : Type 0 where
  pub code : ℕ
  pub body : Bytes

pub data ReadError (E : Type 0) : Type 0 where
  read_message write_pong : E → ReadError E
  receive_queue_full : ReadError E

-- The fields of `Conn` that change, and the offsets. `dead` and `fd_closed` are the closed channel and
-- the closed socket.
pub record Conn (E : Type 0) : Type 0 where
  pub eth_offset : ℕ
  pub snap_offset : ℕ
  pub eth_version : ℕ
  pub dead : Bool
  pub msgs : List ConnMsg
  pub disc_reason : Bytes
  pub read_error : Option (ReadError E)
  pub fd_closed : Bool

abbrev pub observed : Bytes → ℕ → Bytes → Write
observed protocol code payload = record {
  protocol = protocol;
  code = code;
  protocol_id = [];
  topic = [];
  payload = payload;
  raw = false;
}

pub data HelloError : Type 0 where
  negotiation eth_offset_error snap_offset_error : Cap → HelloError
  no_common_eth : HelloError

module _ {E : Type 0} where
  abbrev pub fresh_conn : ℕ → ℕ → ℕ → Conn E
  fresh_conn eth_offset version snap_offset = record {
    eth_offset = eth_offset;
    snap_offset = snap_offset;
    eth_version = version;
    dead = false;
    msgs = [];
    disc_reason = [];
    read_error = none;
    fd_closed = false;
  }

  abbrev pub on_snap_offset : ℕ → ℕ → Result Cap (Option (ℕ × ℕ)) → Result HelloError (Conn E)
  on_snap_offset offset version (err c) = err (snap_offset_error c)
  on_snap_offset offset version (ok none) = ok (fresh_conn offset version 0)
  on_snap_offset offset version (ok (some (s, v))) = ok (fresh_conn offset version s)

  abbrev pub on_eth_offset : List Cap → Result Cap (Option (ℕ × ℕ)) → Result HelloError (Conn E)
  on_eth_offset caps (err c) = err (eth_offset_error c)
  on_eth_offset caps (ok none) = err no_common_eth
  on_eth_offset caps (ok (some (offset, version))) =
      on_snap_offset offset version (capability_offset caps snap)

  abbrev pub on_negotiated : Result Cap (List Cap) → Result HelloError (Conn E)
  on_negotiated (err c) = err (negotiation c)
  on_negotiated (ok caps) = on_eth_offset caps (capability_offset caps eth)

  -- From the two lists of capabilities to the offsets, behind the Hello exchange.
  unfoldable pub negotiate : List Cap → List Cap → Result HelloError (Conn E)
  negotiate local remote = on_negotiated (negotiated_capabilities local remote)

  -- The write that is observed, and the code and the payload that the wire gets.
  unfoldable pub send_raw : Conn E → ℕ → Bytes → Write × (ℕ × Bytes)
  send_raw c code payload = (observed eth code payload, ((c.eth_offset + code) % 2 ^ 64, payload))

  unfoldable pub write_raw : Conn E → ℕ → Bytes → Write × (ℕ × Bytes)
  write_raw c code payload = (observed (codes "rlpx") code payload, (code, payload))

  -- `none` is the error of a connection without SNAP.
  unfoldable pub send_snap_raw : Conn E → ℕ → Bytes → Option (Write × (ℕ × Bytes))
  send_snap_raw c code payload =
      if c.snap_offset == 0
      then none
      else some (observed snap code payload, ((c.snap_offset + code) % 2 ^ 64, payload))

  unfoldable pub set_disconnect_reason : Bytes → Conn E → Conn E
  set_disconnect_reason reason c =
      if length reason == 0
      then c
      else if length c.disc_reason == 0
      then record c { disc_reason = reason }
      else c

  abbrev pub first_error : ReadError E → Option (ReadError E) → Option (ReadError E)
  first_error e none = some e
  first_error e (some old) = some old

  unfoldable pub set_read_error : ReadError E → Conn E → Conn E
  set_read_error e c = record c { read_error = first_error e c.read_error }

  -- The queue's send, and whether the message got in.
  unfoldable pub queue_message : ConnMsg → Conn E → Bool × Conn E
  queue_message m c =
      if ltb (length c.msgs) queue_capacity
      then (true, record c { msgs = c.msgs ++ (m ∷ []) })
      else (false, set_read_error receive_queue_full c)

-- What the wire's next read returns; with a disconnect comes the decoded reason, with a ping the error
-- of the answer's write.
pub data Event (E : Type 0) : Type 0 where
  read_failed : E → Event E
  disconnect : Bytes → Event E
  ping : Option E → Event E
  pong : Event E
  message : ConnMsg → Event E

module _ {E : Type 0} where
  -- The reader's return.
  abbrev pub stop : Conn E → Conn E
  stop c = record c { dead = true }

  abbrev pub close_socket : Conn E → Conn E
  close_socket c = record c { fd_closed = true }

  abbrev pub on_queued : Bool × Conn E → Conn E
  on_queued (true, c) = c
  on_queued (false, c) = stop (close_socket c)

  -- One round of `readMessages`. A message's code is none of the three that the reader answers itself.
  unfoldable pub read_round : Event E → Conn E → Conn E
  read_round (read_failed e) c = stop (set_read_error (read_message e) c)
  read_round (disconnect reason) c = stop (set_disconnect_reason reason c)
  read_round (ping (some e)) c = stop (close_socket (set_read_error (write_pong e) c))
  read_round (ping none) c = c
  read_round pong c = c
  read_round (message m) c = on_queued (queue_message m c)

pub data ReadFailure (E : Type 0) : Type 0 where
  failed : ReadError E → ReadFailure E
  peer_disconnected : Bytes → ReadFailure E

pub data WaitError (E : Type 0) : Type 0 where
  connection_dead : ReadFailure E → WaitError E
  run_cancelled timeout : WaitError E

-- Which case of the `select` was taken, with the message for the first.
pub data Select : Type 0 where
  got : ConnMsg → Select
  is_dead is_cancelled is_timeout : Select

module _ {E : Type 0} where
  abbrev pub failure_of : Bytes → Option (ReadError E) → ReadFailure E
  failure_of reason (some e) = failed e
  failure_of reason none = peer_disconnected reason

  unfoldable pub read_failure : Conn E → ReadFailure E
  read_failure c = failure_of c.disc_reason c.read_error

  unfoldable pub read_msg : Conn E → Select → Result (WaitError E) ConnMsg
  read_msg c (got m) = ok m
  read_msg c is_dead = err (connection_dead (read_failure c))
  read_msg c is_cancelled = err run_cancelled
  read_msg c is_timeout = err timeout

  -- The loop over what each `select` took; `none` for a list that ends before the loop does.
  unfoldable pub wait_for_msg : Conn E → ℕ → List Select → Option (Result (WaitError E) Bytes)
  wait_for_msg c want [] = none
  wait_for_msg c want (got m ∷ ss) =
      if m.code == want then some (ok m.body) else wait_for_msg c want ss
  wait_for_msg c want (is_dead ∷ ss) = some (err (connection_dead (read_failure c)))
  wait_for_msg c want (is_cancelled ∷ ss) = some (err run_cancelled)
  wait_for_msg c want (is_timeout ∷ ss) = some (err timeout)

  -- `Closed` does not wait.
  unfoldable pub is_closed : Conn E → Bool
  is_closed c = c.dead

-- `SendRaw` and `SendETHRaw` of the connection before the Status exchange, whose offset is given.
unfoldable pub pre_status_send_raw : ℕ → Bytes → Write × (ℕ × Bytes)
pre_status_send_raw code payload = (observed (codes "rlpx") code payload, (code, payload))

unfoldable pub pre_status_send_eth_raw : ℕ → ℕ → Bytes → Write × (ℕ × Bytes)
pre_status_send_eth_raw eth_offset code payload =
    (observed eth code payload, ((eth_offset + code) % 2 ^ 64, payload))

-- A select that has no message to take.
unfoldable pub wait_disconnect : Select → Bool
wait_disconnect is_dead = true
wait_disconnect _ = false
