-- ===== src/Eth/PreStatus.antt =====
-- eth/conn.go: the dial that stops before the Status exchange; eth/ready.go: the dial that completes it.
-- What each call on the connection returns is a parameter, and the key is there.
pub mod Ready
pub mod Versions
mod Runs
use raidan_sdk.Prelude.{
  ℕ, Bool, true, false, ◌&&◌, Option, none, some, List, [], Bytes, length, ltb, leb, ◌==◌,
  if◌then◌else◌,
}
use raidan_sdk.Prelude.Result.{Result, ok, err}
use raidan_sdk.Rpc.ForkId.{ChainParams}
use raidan_sdk.Rlpx.Disconnect.{RlpStream}
use raidan_sdk.Eth.Caps.{Cap, Config, ConfigError, validate, capabilities, eth_capabilities}
use raidan_sdk.Eth.Conn.{Conn, HelloError, negotiate}
use raidan_sdk.Eth.Dial.{
  HelloReply, hello_failed, undecodable_hello, hello_disconnect, unexpected_code, hello, DialError,
  rlpx_handshake, set_hello_deadline, encode_hello, write_hello, read_hello, decode_hello, identity,
  clear_hello_deadline, parse_enode, fetch_chain_params, disconnected_in_hello, expected_hello,
  hello_negotiation, bad_config, zero_fork_id,
}
use raidan_sdk.Eth.Wire.{WireRead, Waited}
use raidan_sdk.Eth.Status.{StatusCodec, Params, ExchangeError, zero_hash, exchange_status}

pub record PreStatusConn : Type 0 where
  pub params : Params
  pub eth_offset : ℕ
  pub eth_version : ℕ
  pub snap_offset : ℕ
  pub peer_capabilities : List Cap
  pub snappy : Bool

-- `ethrpc.ChainParams{}`.
abbrev pub zero_params : Params
zero_params = record {
  network_id = 0;
  head_hash = zero_hash;
  fork_id = zero_fork_id;
  chain = record {
    genesis = zero_hash;
    head_number = 0;
    head_time = 0;
    fork_blocks = [];
    fork_times = [];
  };
}

-- The calls of one dial, `none` for no error. The parameters are fetched where there is an RPC; the version
-- is that of the peer's Hello.
pub record PreCalls (E : Type 0) : Type 0 where
  pub node_error : Option E
  pub fetched : Option (Result E Params)
  pub rlpx_error : Option E
  pub hello_deadline_error : Option E
  pub hello_encode_error : Option E
  pub hello_write_error : Option E
  pub hello_reply : HelloReply E
  pub hello_version : ℕ
  pub clear_error : Option E

pub data Socket : Type 0 where
  unopened opened closed : Socket

-- The capabilities of the Hello, with a default of its own.
unfoldable pub pre_status_capabilities : Config → List Cap
pre_status_capabilities config =
    if config.max_version == 0 && config.snap_version == 0 && length config.exact == 0
    then eth_capabilities 69
    else capabilities config

module _ {E : Type 0} where
  -- The error before there is a socket, and `closeOnError`.
  abbrev pub not_dialled : DialError E → Result (DialError E) PreStatusConn × Socket
  not_dialled e = (err e, unopened)

  abbrev pub close_on_error : DialError E → Result (DialError E) PreStatusConn × Socket
  close_on_error e = (err e, closed)

  -- A call on the open socket.
  abbrev pub unless_error :
      (E → DialError E)
      → Option E
      → Result (DialError E) PreStatusConn × Socket
      → Result (DialError E) PreStatusConn × Socket
  unless_error f (some e) next = close_on_error (f e)
  unless_error f none next = next

  abbrev pub on_negotiation :
      Params
      → PreCalls E
      → List Cap
      → Result HelloError (Conn E)
      → Result (DialError E) PreStatusConn × Socket
  on_negotiation params calls peer_caps (err e) = close_on_error (hello_negotiation e)
  on_negotiation params calls peer_caps (ok c) =
      unless_error clear_hello_deadline calls.clear_error (
        ok (record {
          params = params;
          eth_offset = c.eth_offset;
          eth_version = c.eth_version;
          snap_offset = c.snap_offset;
          peer_capabilities = peer_caps;
          snappy = leb 5 calls.hello_version;
        }),
        opened,
      )

  abbrev pub on_reply :
      Params → List Cap → PreCalls E → HelloReply E → Result (DialError E) PreStatusConn × Socket
  on_reply params caps calls (hello_failed e) = close_on_error (read_hello e)
  on_reply params caps calls (undecodable_hello e) = close_on_error (decode_hello e)
  on_reply params caps calls (hello_disconnect reason) =
      close_on_error (disconnected_in_hello reason)
  on_reply params caps calls (unexpected_code code) = close_on_error (expected_hello code)
  on_reply params caps calls (hello o peer_caps) =
      unless_error identity o (on_negotiation params calls peer_caps (negotiate caps peer_caps))

  abbrev pub on_rlpx :
      Params → List Cap → PreCalls E → Option E → Result (DialError E) PreStatusConn × Socket
  on_rlpx params caps calls (some e) = not_dialled (rlpx_handshake e)
  on_rlpx params caps calls none = unless_error set_hello_deadline calls.hello_deadline_error (
      unless_error encode_hello calls.hello_encode_error (
        unless_error write_hello calls.hello_write_error
          (on_reply params caps calls calls.hello_reply)))

  abbrev pub on_params :
      Config → PreCalls E → Option (Result E Params) → Result (DialError E) PreStatusConn × Socket
  on_params config calls none =
      on_rlpx zero_params (pre_status_capabilities config) calls calls.rlpx_error
  on_params config calls (some (err e)) = not_dialled (fetch_chain_params e)
  on_params config calls (some (ok params)) =
      on_rlpx params (pre_status_capabilities config) calls calls.rlpx_error

  abbrev pub on_node : Config → PreCalls E → Option E → Result (DialError E) PreStatusConn × Socket
  on_node config calls (some e) = not_dialled (parse_enode e)
  on_node config calls none = on_params config calls calls.fetched

  abbrev pub on_config :
      Config → PreCalls E → Option ConfigError → Result (DialError E) PreStatusConn × Socket
  on_config config calls (some e) = not_dialled (bad_config e)
  on_config config calls none = on_node config calls calls.node_error

  -- `DialPreStatusWithKey`, and the socket behind it.
  unfoldable pub dial_pre_status_with_key :
      Config → PreCalls E → Result (DialError E) PreStatusConn × Socket
  dial_pre_status_with_key config calls = on_config config calls (validate config)

pub data ReadyError (E : Type 0) : Type 0 where
  unsupported_version : ℕ → ReadyError E
  dial_failed : DialError E → ReadyError E
  unsupported_capability : ℕ → ℕ → ReadyError E
  exchange_failed : ExchangeError E → ReadyError E

-- The configuration of a ready connection.
abbrev pub up_to : ℕ → Config
up_to want = record { max_version = want; snap_version = 0; exact = [] }

module _ {E : Type 0} (codec : StatusCodec E) (s : RlpStream) where
  -- Behind the Status exchange; its reads may still go on.
  abbrev pub on_exchange :
      PreStatusConn
      → Option (Option (ExchangeError E))
      → Option (Result (ReadyError E) PreStatusConn) × Socket
  on_exchange c none = (none, opened)
  on_exchange c (some none) = (some (ok c), opened)
  on_exchange c (some (some e)) = (some (err (exchange_failed e)), closed)

  -- `send` is the error of sending the Status, `deadline_error` that of the read deadline.
  abbrev pub on_dialled :
      ℕ
      → (Bytes → Option E)
      → Option E
      → List (WireRead E)
      → Result (DialError E) PreStatusConn × Socket
      → Option (Result (ReadyError E) PreStatusConn) × Socket
  on_dialled want send deadline_error rs (err e, socket) = (some (err (dial_failed e)), socket)
  on_dialled want send deadline_error rs (ok c, socket) =
      if ltb c.eth_version want
      then (some (err (unsupported_capability c.eth_version want)), closed)
      else on_exchange c
          (exchange_status codec s c.eth_version c.eth_offset c.params send deadline_error
            rs).answer

  -- `DialReady`: the dial offers the versions up to the wanted one.
  unfoldable pub dial_ready :
      ℕ
      → PreCalls E
      → (Bytes → Option E)
      → Option E
      → List (WireRead E)
      → Option (Result (ReadyError E) PreStatusConn) × Socket
  dial_ready want calls send deadline_error rs =
      if ltb want 68
      then (some (err (unsupported_version want)), unopened)
      else on_dialled want send deadline_error rs (dial_pre_status_with_key (up_to want) calls)
