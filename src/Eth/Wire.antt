-- ===== src/Eth/Wire.antt =====
-- eth/wait.go, eth/request.go, eth/codes.go and the waits of eth/status.go: the loops that read the
-- wire themselves, answer pings, and end at a disconnect, at an error or at the message they wait for.
-- The reads and the errors of the writes are given, as are the RLP stream and its splits.
pub mod Closing
pub mod Offset
mod Runs
use raidan_sdk.Prelude.{
  ℕ, zero, suc, ◌+◌, ◌%◌, ◌^◌, Bool, true, false, Option, none, some, List, [], ◌∷◌, Bytes, codes,
  ◌==◌, if◌then◌else◌,
}
use raidan_sdk.Prelude.Result.{Result, ok, err, ◌>>=◌}
use raidan_sdk.Rlpx.Disconnect.{RlpStream, decode_disconnect_reason}
use raidan_sdk.Eth.Conn.{disc_msg, ping_msg, pong_msg}

-- One `conn.Read` and what follows from it outside of the code: an error, and whether it is a timeout,
-- or a message, with the error of writing a pong in answer to it.
pub data WireRead (E : Type 0) : Type 0 where
  read_failed : E → Bool → WireRead E
  received : ℕ → Bytes → Option E → WireRead E

pub data WireError (E : Type 0) : Type 0 where
  set_deadline not_sent write_pong_failed bad_request_id : E → WireError E
  disconnected : Bytes → WireError E

-- What a loop gave, `none` for reads that end before the loop does, and the pongs it wrote.
pub record Waited (A : Type 0) : Type 0 where
  pub answer : Option A
  pub pongs : ℕ

module _ {A : Type 0} where
  abbrev pub ends : A → Waited A
  ends a = record { answer = some a; pongs = 0 }

  abbrev pub one_pong : Waited A → Waited A
  one_pong w = record { answer = w.answer; pongs = suc w.pongs }

  -- The pong of a ping: the loop goes on where it was written.
  abbrev pub after_pong : {E : Type 0} → (E → A) → Waited A → Option E → Waited A
  after_pong failed rest (some e) = ends (failed e)
  after_pong failed rest none = one_pong rest

-- The code of the peer's Status, which `WaitStatus` writes out.
abbrev pub first_eth_code : ℕ
first_eth_code = 16

abbrev pub closed_of : Option (Bool × Bytes) → Option Bool
closed_of none = none
closed_of (some (closed, reason)) = some closed

module _ {E : Type 0} (s : RlpStream) where
  -- `WaitCloseReason`, `waitStatusOutcome`: whether the peer closed, and the reason that it gave.
  unfoldable pub close_loop : List (WireRead E) → Waited (Bool × Bytes)
  close_loop [] = record { answer = none; pongs = 0 }
  close_loop (read_failed e true ∷ rs) = ends (false, [])
  close_loop (read_failed e false ∷ rs) = ends (true, [])
  close_loop (received code body pong ∷ rs) =
      let rest = close_loop rs in
      if code == disc_msg
      then ends (true, (decode_disconnect_reason s body).1)
      else if code == ping_msg
      then after_pong (λ e. (true, [])) rest pong
      else rest

  abbrev pub wait_close_reason : Option E → List (WireRead E) → Waited (Bool × Bytes)
  wait_close_reason (some e) rs = ends (false, [])
  wait_close_reason none rs = close_loop rs

  abbrev pub wait_status_outcome : Option E → List (WireRead E) → Waited (Bool × Bytes)
  wait_status_outcome (some e) rs = ends (false, [])
  wait_status_outcome none rs = close_loop rs

  abbrev pub wait_close : Option E → List (WireRead E) → Option Bool
  wait_close deadline_error rs = closed_of (wait_close_reason deadline_error rs).answer

  -- The loop of `WaitStatus`, `none` in its answer for no error.
  unfoldable pub status_loop : List (WireRead E) → Waited (Option (WireError E))
  status_loop [] = record { answer = none; pongs = 0 }
  status_loop (read_failed e timeout ∷ rs) = ends (some (not_sent e))
  status_loop (received code body pong ∷ rs) =
      let rest = status_loop rs in
      if code == disc_msg
      then ends (some (disconnected (decode_disconnect_reason s body).1))
      else if code == first_eth_code
      then ends none
      else if code == ping_msg
      then after_pong (λ e. some (write_pong_failed e)) rest pong
      else rest

  abbrev pub wait_status : Option E → List (WireRead E) → Waited (Option (WireError E))
  wait_status (some e) rs = ends (some (set_deadline e))
  wait_status none rs = status_loop rs

-- `rlp.SplitList` and `rlp.SplitUint64`, without what is left behind them.
pub record Splits (E : Type 0) : Type 0 where
  pub split_list : Bytes → Result E Bytes
  pub split_uint64 : Bytes → Result E ℕ

module _ {E : Type 0} (p : Splits E) where
  unfoldable pub decode_request_id : Bytes → Result E ℕ
  decode_request_id body = p.split_list body >>= p.split_uint64

  abbrev pub request_of : Bytes → Result E ℕ → Result (WireError E) (ℕ × Bytes)
  request_of body (err e) = err (bad_request_id e)
  request_of body (ok id) = ok (id, body)

module _ {E : Type 0} (s : RlpStream) (p : Splits E) where
  -- The loop of `waitForWireRequestID`. The cases of the base protocol come first, so that a wanted code
  -- that is one of theirs is never answered.
  unfoldable pub request_loop : ℕ → List (WireRead E) → Waited (Result (WireError E) (ℕ × Bytes))
  request_loop want [] = record { answer = none; pongs = 0 }
  request_loop want (read_failed e timeout ∷ rs) = ends (err (not_sent e))
  request_loop want (received code body pong ∷ rs) =
      let rest = request_loop want rs in
      if code == disc_msg
      then ends (err (disconnected (decode_disconnect_reason s body).1))
      else if code == ping_msg
      then after_pong (λ e. err (write_pong_failed e)) rest pong
      else if code == pong_msg
      then rest
      else if code == want
      then ends (request_of p body (decode_request_id p body))
      else rest

  abbrev pub wait_for_wire_request_id :
      ℕ → Option E → List (WireRead E) → Waited (Result (WireError E) (ℕ × Bytes))
  wait_for_wire_request_id want (some e) rs = ends (err (set_deadline e))
  wait_for_wire_request_id want none rs = request_loop want rs

  -- `PreStatusConn.WaitForRequestID`.
  abbrev pub pre_status_wait_for_request_id :
      ℕ → ℕ → Option E → List (WireRead E) → Waited (Result (WireError E) (ℕ × Bytes))
  pre_status_wait_for_request_id eth_offset request_code deadline_error rs =
      wait_for_wire_request_id ((eth_offset + request_code) % 2 ^ 64) deadline_error rs

-- The request code and the name that go with a response, `none` for the error of another code.
unfoldable pub request_for_response : ℕ → Option (ℕ × Bytes)
request_for_response code =
    if code == 0x04
    then some (0x03, codes "GetBlockHeaders")
    else if code == 0x06
    then some (0x05, codes "GetBlockBodies")
    else if code == 0x0a
    then some (0x09, codes "GetPooledTransactions")
    else if code == 0x10
    then some (0x0f, codes "GetReceipts")
    else if code == 0x13
    then some (0x12, codes "GetBlockAccessLists")
    else if code == 0x15
    then some (0x14, codes "GetCells")
    else none
