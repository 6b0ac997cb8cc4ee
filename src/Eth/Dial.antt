-- ===== src/Eth/Dial.antt =====
-- eth/conn.go: `rawDial`, from the RLPx connection over Hello to the Status exchange, and `DialWithKey`,
-- which may dial a second time. What each call on the connection returns is a parameter; an error is of
-- a type `E`.
pub mod Retries
mod Runs
use raidan_sdk.Prelude.{
  ℕ, Bool, true, false, not, ◌&&◌, Option, none, some, List, [], ◌∷◌, Bytes, replicate, ◌==◌,
  if◌then◌else◌, bytes_eq,
}
use raidan_sdk.Prelude.Result.{Result, ok, err}
use raidan_sdk.Rpc.ForkId.{ForkId}
use raidan_sdk.Eth.Caps.{Cap, Config, ConfigError, validate, capabilities}
use raidan_sdk.Eth.Conn.{Conn, HelloError, snap_offset_error, negotiate}

-- The peer's answer to the Hello. `hello` is one that decodes, with the error of the check of its
-- identity.
pub data HelloReply (E : Type 0) : Type 0 where
  hello_failed undecodable_hello : E → HelloReply E
  hello_disconnect : Bytes → HelloReply E
  unexpected_code : ℕ → HelloReply E
  hello : Option E → List Cap → HelloReply E

-- What a read of the Status loop gives. A Status comes with the fork ID that its decoder returns, and
-- with the decoder's error; a ping with the error of the answer's write.
pub data StatusEvent (E : Type 0) : Type 0 where
  status_failed : E → StatusEvent E
  status_disconnect : Bytes → StatusEvent E
  status : ForkId → Option E → StatusEvent E
  status_ping : Option E → StatusEvent E
  status_pong : StatusEvent E
  other_message : StatusEvent E

-- The calls of one raw dial, `none` for no error.
pub record Calls (E : Type 0) : Type 0 where
  pub rlpx_error : Option E
  pub hello_deadline_error : Option E
  pub hello_encode_error : Option E
  pub hello_write_error : Option E
  pub hello_reply : HelloReply E
  pub hello_clear_error : Option E
  pub status_encode_error : Option E
  pub status_deadline_error : Option E
  pub status_events : List (StatusEvent E)
  pub status_clear_error : Option E
  pub status_write_error : Option E

pub data DialError (E : Type 0) : Type 0 where
  rlpx_handshake set_hello_deadline encode_hello write_hello read_hello decode_hello identity :
      E → DialError E
  clear_hello_deadline encode_status set_status_deadline read_status decode_status : E → DialError E
  write_pong_status clear_status_deadline write_status parse_enode fetch_chain_params :
      E → DialError E
  disconnected_in_hello disconnected_in_status : Bytes → DialError E
  expected_hello : ℕ → DialError E
  hello_negotiation : HelloError → DialError E
  bad_config : ConfigError → DialError E
  still_reading : DialError E

-- `forkid.ID{}`.
abbrev pub zero_fork_id : ForkId
zero_fork_id = record { hash = replicate 4 0; next = 0 }

abbrev pub fork_id_eq : ForkId → ForkId → Bool
fork_id_eq a b = bytes_eq a.hash b.hash && a.next == b.next

module _ {E : Type 0} where
  -- A call that stops the dial with its error, or goes on.
  abbrev pub checked :
      (E → DialError E)
      → ForkId
      → Option E
      → Result (DialError E) (Conn E) × ForkId
      → Result (DialError E) (Conn E) × ForkId
  checked f id (some e) next = (err (f e), id)
  checked f id none next = next

  -- Behind the Status loop, with the peer's fork ID.
  abbrev pub finish_status : Calls E → Conn E → ForkId → Result (DialError E) (Conn E) × ForkId
  finish_status calls c id =
      checked clear_status_deadline id calls.status_clear_error
        (checked write_status id calls.status_write_error (ok c, id))

  -- The loop `readStatus`; the case of a list that ends before the loop is `still_reading`.
  unfoldable pub read_status_loop :
      Calls E → Conn E → List (StatusEvent E) → Result (DialError E) (Conn E) × ForkId
  read_status_loop calls c [] = (err still_reading, zero_fork_id)
  read_status_loop calls c (status_failed e ∷ es) = (err (read_status e), zero_fork_id)
  read_status_loop calls c (status_disconnect r ∷ es) =
      (err (disconnected_in_status r), zero_fork_id)
  read_status_loop calls c (status id o ∷ es) =
      checked decode_status id o (finish_status calls c id)
  read_status_loop calls c (status_ping o ∷ es) =
      checked write_pong_status zero_fork_id o (read_status_loop calls c es)
  read_status_loop calls c (status_pong ∷ es) = read_status_loop calls c es
  read_status_loop calls c (other_message ∷ es) = read_status_loop calls c es

  -- From the offsets on. The deadline is cleared between the offset of ETH and that of SNAP.
  abbrev pub exchange_status :
      Calls E → Result HelloError (Conn E) → Result (DialError E) (Conn E) × ForkId
  exchange_status calls (err (snap_offset_error c)) =
      checked clear_hello_deadline zero_fork_id calls.hello_clear_error
        (err (hello_negotiation (snap_offset_error c)), zero_fork_id)
  exchange_status calls (err e) = (err (hello_negotiation e), zero_fork_id)
  exchange_status calls (ok c) = checked clear_hello_deadline zero_fork_id calls.hello_clear_error (
      checked encode_status zero_fork_id calls.status_encode_error (
        checked set_status_deadline zero_fork_id calls.status_deadline_error
          (read_status_loop calls c calls.status_events)))

  abbrev pub on_hello : Calls E → List Cap → HelloReply E → Result (DialError E) (Conn E) × ForkId
  on_hello calls caps (hello_failed e) = (err (read_hello e), zero_fork_id)
  on_hello calls caps (undecodable_hello e) = (err (decode_hello e), zero_fork_id)
  on_hello calls caps (hello_disconnect r) = (err (disconnected_in_hello r), zero_fork_id)
  on_hello calls caps (unexpected_code code) = (err (expected_hello code), zero_fork_id)
  on_hello calls caps (hello o peer_caps) =
      checked identity zero_fork_id o (exchange_status calls (negotiate caps peer_caps))

  -- The connection or the error, and the peer's fork ID where one was received.
  unfoldable pub raw_dial : List Cap → Calls E → Result (DialError E) (Conn E) × ForkId
  raw_dial caps calls = checked rlpx_handshake zero_fork_id calls.rlpx_error (
      checked set_hello_deadline zero_fork_id calls.hello_deadline_error (
        checked encode_hello zero_fork_id calls.hello_encode_error (
          checked write_hello zero_fork_id calls.hello_write_error
            (on_hello calls caps calls.hello_reply))))

-- The outcome of a dial, with the fork IDs that its raw dials presented.
pub record Dialled (E : Type 0) : Type 0 where
  pub result : Result (DialError E) (Conn E)
  pub presented : List ForkId

module _ {E : Type 0} where
  abbrev pub never_dialled : DialError E → Dialled E
  never_dialled e = record { result = err e; presented = [] }

  -- Behind the first raw dial, which presented `ours`; the second one presents the peer's fork ID.
  abbrev pub on_first :
      List Cap → ForkId → (ForkId → Calls E) → Result (DialError E) (Conn E) × ForkId → Dialled E
  on_first caps ours second (ok c, id) = record { result = ok c; presented = ours ∷ [] }
  on_first caps ours second (err e, id) =
      if fork_id_eq id zero_fork_id
      then record { result = err e; presented = ours ∷ [] }
      else record { result = (raw_dial caps (second id)).0; presented = ours ∷ id ∷ [] }

  abbrev pub with_params :
      List Cap → (ForkId → Calls E) → (ForkId → Calls E) → Result E ForkId → Dialled E
  with_params caps first second (err e) = never_dialled (fetch_chain_params e)
  with_params caps first second (ok ours) = on_first caps ours second (raw_dial caps (first ours))

  abbrev pub with_node :
      List Cap → (ForkId → Calls E) → (ForkId → Calls E) → Result E ForkId → Option E → Dialled E
  with_node caps first second params (some e) = never_dialled (parse_enode e)
  with_node caps first second params none = with_params caps first second params

  abbrev pub with_config :
      Config
      → (ForkId → Calls E)
      → (ForkId → Calls E)
      → Option E
      → Result E ForkId
      → Option ConfigError
      → Dialled E
  with_config config first second node_error params (some e) = never_dialled (bad_config e)
  with_config config first second node_error params none =
      with_node (capabilities config) first second params node_error

  -- `DialWithKey` with a key. `params` is the fork ID of the fetched chain parameters; how the calls of
  -- either raw dial go may depend on the fork ID that it presents.
  unfoldable pub dial_with_key :
      Config → (ForkId → Calls E) → (ForkId → Calls E) → Option E → Result E ForkId → Dialled E
  dial_with_key config first second node_error params =
      with_config config first second node_error params (validate config)
