-- ===== src/Wit.antt =====
-- wit/conn.go: the dial that adds WIT/1 to ETH, its sends, and the read loop. What the connection's
-- calls return is a parameter; an error is of a type `E`.
pub mod Reads
mod Runs
use raidan_sdk.Prelude.{
  ℕ, ◌+◌, ◌-◌, ◌%◌, ◌^◌, Bool, ◌||◌, Option, none, some, List, [], ◌∷◌, Bytes, ltb, leb,
  if◌then◌else◌,
}
use raidan_sdk.Prelude.Result.{Result, ok, err}
use raidan_sdk.Session.{Write}
use raidan_sdk.Eth.Caps.{Cap, eth, wit, has_cap, protocol_length}
use raidan_sdk.Eth.Conn.{Conn, HelloError, negotiate, observed}

-- ETH/68 or ETH/69, and WIT/1.
abbrev pub wit_capabilities : List Cap
wit_capabilities =
    record { name = eth; version = 69 }
    ∷ record { name = eth; version = 68 }
    ∷ record { name = wit; version = 1 }
    ∷ []

pub record WitConn : Type 0 where
  pub offset : ℕ

pub data WitError (E : Type 0) : Type 0 where
  pre_status : HelloError → WitError E
  unsupported unsupported_eth : WitError E
  exchange_failed : E → WitError E

module _ {E : Type 0} where
  abbrev pub with_length : ℕ → Option ℕ → Result (WitError E) WitConn
  with_length eth_offset none = err unsupported_eth
  with_length eth_offset (some len) = ok (record { offset = (eth_offset + len) % 2 ^ 64 })

  abbrev pub on_exchange_status : Conn E → Option E → Result (WitError E) WitConn
  on_exchange_status c (some e) = err (exchange_failed e)
  on_exchange_status c none = with_length c.eth_offset (protocol_length c.eth_version)

  abbrev pub on_pre_status :
      List Cap → Option E → Result HelloError (Conn E) → Result (WitError E) WitConn
  on_pre_status remote status_error (err e) = err (pre_status e)
  on_pre_status remote status_error (ok c) =
      if has_cap remote (record { name = wit; version = 1 })
      then on_exchange_status c status_error
      else err unsupported

  -- From the peer's capabilities on, with the error of the Status exchange.
  unfoldable pub wit_dial : List Cap → Option E → Result (WitError E) WitConn
  wit_dial remote status_error =
      on_pre_status remote status_error (negotiate wit_capabilities remote)

-- The write that is observed, and the code and the payload that the wire gets.
unfoldable pub wit_send_raw : WitConn → ℕ → Bytes → Write × (ℕ × Bytes)
wit_send_raw c code payload = (observed wit code payload, ((c.offset + code) % 2 ^ 64, payload))

-- What the wire's next read returns; with a ping comes the error of the answer's write.
pub data WitEvent (E : Type 0) : Type 0 where
  wit_failed : E → WitEvent E
  wit_disconnect : Bytes → WitEvent E
  wit_ping : Option E → WitEvent E
  wit_frame : ℕ → Bytes → WitEvent E

pub data WitReadError (E : Type 0) : Type 0 where
  wit_read_failed wit_pong_failed : E → WitReadError E
  wit_disconnected : Bytes → WitReadError E

module _ {E : Type 0} where
  abbrev pub on_wit_ping :
      Option (Result (WitReadError E) (ℕ × Bytes))
      → Option E
      → Option (Result (WitReadError E) (ℕ × Bytes))
  on_wit_ping more (some e) = some (err (wit_pong_failed e))
  on_wit_ping more none = more

  -- The loop of `ReadRaw`, on frames whose code is no disconnect and no ping; `none` for a list that ends
  -- before the loop does.
  unfoldable pub wit_read :
      WitConn → List (WitEvent E) → Option (Result (WitReadError E) (ℕ × Bytes))
  wit_read c [] = none
  wit_read c (wit_failed e ∷ es) = some (err (wit_read_failed e))
  wit_read c (wit_disconnect r ∷ es) = some (err (wit_disconnected r))
  wit_read c (wit_ping o ∷ es) = on_wit_ping (wit_read c es) o
  wit_read c (wit_frame code payload ∷ es) =
      if ltb code c.offset || leb ((c.offset + 4) % 2 ^ 64) code
      then wit_read c es
      else some (ok (code - c.offset, payload))
