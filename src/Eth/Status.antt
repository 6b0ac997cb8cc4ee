-- ===== src/Eth/Status.antt =====
-- eth/status.go: the Status that a connection sends, the check of the peer's, and the loop that
-- exchanges them. The RLP of the two layouts is a parameter, with an error of a type `E`.
pub mod Judgement
pub mod Agreement
mod Runs
use raidan_sdk.Prelude.{
  ℕ, ◌+◌, ◌%◌, ◌^◌, Bool, true, false, not, ◌&&◌, ◌||◌, Option, none, some, List, [], ◌∷◌, Bytes,
  replicate, ltb, leb, ◌==◌, if◌then◌else◌, bytes_eq,
}
use raidan_sdk.Prelude.Result.{Result, ok, err, ◌>>=◌}
use raidan_sdk.Rpc.ForkId.{ForkId, ForkError, ChainParams, validate_fork_id}
use raidan_sdk.Rlpx.Disconnect.{RlpStream, decode_disconnect_reason}
use raidan_sdk.Eth.Conn.{disc_msg, ping_msg}
use raidan_sdk.Eth.Dial.{zero_fork_id}
use raidan_sdk.Eth.Wire.{WireRead, read_failed, received, Waited, ends, after_pong}

-- The layout of ETH/68.
pub record Status68 : Type 0 where
  pub protocol_version : ℕ
  pub network_id : ℕ
  pub td : ℕ
  pub head : Bytes
  pub genesis : Bytes
  pub fork_id : ForkId

-- `ethproto.StatusPacket`, the layout from ETH/69 on.
pub record StatusPacket : Type 0 where
  pub protocol_version : ℕ
  pub network_id : ℕ
  pub genesis : Bytes
  pub fork_id : ForkId
  pub earliest_block : ℕ
  pub latest_block : ℕ
  pub latest_block_hash : Bytes

-- `rlp.EncodeToBytes` and `rlp.DecodeBytes` of either.
pub record StatusCodec (E : Type 0) : Type 0 where
  pub encode68 : Status68 → Result E Bytes
  pub decode68 : Bytes → Result E Status68
  pub encode_packet : StatusPacket → Result E Bytes
  pub decode_packet : Bytes → Result E StatusPacket

-- The chain parameters: what the fork check reads, and the rest of the identity.
pub record Params : Type 0 where
  pub network_id : ℕ
  pub head_hash : Bytes
  pub fork_id : ForkId
  pub chain : ChainParams

pub data StatusError (E : Type 0) : Type 0 where
  nil_params zero_latest_hash : StatusError E
  undecodable_status : E → StatusError E
  unsupported_version network_mismatch version_mismatch : ℕ → StatusError E
  genesis_mismatch : Bytes → StatusError E
  fork_rejected : ForkError → StatusError E
  bad_block_range : ℕ → ℕ → StatusError E

-- `common.Hash{}`.
abbrev pub zero_hash : Bytes
zero_hash = replicate 32 0

module _ {E : Type 0} where
  abbrev on_fork : Option ForkError → Option (StatusError E)
  on_fork none = none
  on_fork (some e) = some (fork_rejected e)

  -- `none` is acceptance.
  unfoldable pub validate_status_identity :
      ℕ → ℕ → ℕ → Bytes → ForkId → Params → Option (StatusError E)
  validate_status_identity eth_version protocol_version network_id genesis remote_fork params =
      if not (protocol_version == eth_version)
      then some (version_mismatch protocol_version)
      else if not (network_id == params.network_id)
      then some (network_mismatch network_id)
      else if not (bytes_eq genesis params.chain.genesis)
      then some (genesis_mismatch genesis)
      else on_fork (validate_fork_id params.chain remote_fork)

  -- The peer's fork ID is kept beside an error only where the error is a rejection of it.
  unfoldable pub retry_fork_id : ForkId → StatusError E → ForkId × Option (StatusError E)
  retry_fork_id remote (fork_rejected e) = (remote, some (fork_rejected e))
  retry_fork_id remote e = (zero_fork_id, some e)

  abbrev pub refused : StatusError E → ForkId × Option (StatusError E)
  refused e = (zero_fork_id, some e)

  abbrev pub on_identity :
      ForkId
      → ForkId × Option (StatusError E)
      → Option (StatusError E)
      → ForkId × Option (StatusError E)
  on_identity remote next (some e) = retry_fork_id remote e
  on_identity remote next none = next

  -- Behind the identity of a Status from ETH/69 on.
  unfoldable pub check_range : StatusPacket → ForkId × Option (StatusError E)
  check_range status =
      if ltb status.latest_block status.earliest_block
      then refused (bad_block_range status.earliest_block status.latest_block)
      else if bytes_eq status.latest_block_hash zero_hash
      then refused zero_latest_hash
      else (status.fork_id, none)

  abbrev pub on_status68 : ℕ → Params → Result E Status68 → ForkId × Option (StatusError E)
  on_status68 eth_version params (err e) = refused (undecodable_status e)
  on_status68 eth_version params (ok status) =
      on_identity status.fork_id (status.fork_id, none)
        (validate_status_identity eth_version status.protocol_version status.network_id
          status.genesis status.fork_id params)

  abbrev pub on_packet : ℕ → Params → Result E StatusPacket → ForkId × Option (StatusError E)
  on_packet eth_version params (err e) = refused (undecodable_status e)
  on_packet eth_version params (ok status) = on_identity status.fork_id (check_range status) (
      validate_status_identity eth_version status.protocol_version status.network_id status.genesis
        status.fork_id params)

-- The Status that a connection of a version sends. The version's conversion wraps around.
abbrev pub status68_of : ℕ → Params → Status68
status68_of eth_version params = record {
  protocol_version = eth_version % 2 ^ 32;
  network_id = params.network_id;
  td = 0;
  head = params.head_hash;
  genesis = params.chain.genesis;
  fork_id = params.fork_id;
}

abbrev pub packet_of : ℕ → Params → StatusPacket
packet_of eth_version params = record {
  protocol_version = eth_version % 2 ^ 32;
  network_id = params.network_id;
  genesis = params.chain.genesis;
  fork_id = params.fork_id;
  earliest_block = 0;
  latest_block = params.chain.head_number;
  latest_block_hash = params.head_hash;
}

module _ {E : Type 0} (codec : StatusCodec E) where
  unfoldable pub encode_status : ℕ → Params → Result E Bytes
  encode_status eth_version params =
      if leb 69 eth_version
      then codec.encode_packet (packet_of eth_version params)
      else codec.encode68 (status68_of eth_version params)

  -- The parameters are there.
  unfoldable pub judge_status : ℕ → Bytes → Params → ForkId × Option (StatusError E)
  judge_status eth_version body params =
      if eth_version == 68
      then on_status68 eth_version params (codec.decode68 body)
      else if ltb eth_version 69 || ltb 72 eth_version
      then refused (unsupported_version eth_version)
      else on_packet eth_version params (codec.decode_packet body)

  abbrev pub decode_and_validate_status :
      ℕ → Bytes → Option Params → ForkId × Option (StatusError E)
  decode_and_validate_status eth_version body none = refused nil_params
  decode_and_validate_status eth_version body (some params) = judge_status eth_version body params

pub data ExchangeError (E : Type 0) : Type 0 where
  encode_failed write_failed deadline_failed status_read_failed pong_failed : E → ExchangeError E
  status_refused : StatusError E → ExchangeError E
  peer_left : Bytes → ExchangeError E

module _ {E : Type 0} (codec : StatusCodec E) (s : RlpStream) (version offset : ℕ)
    (p : Params) where
  abbrev judged : Option (StatusError E) → Option (ExchangeError E)
  judged none = none
  judged (some e) = some (status_refused e)

  -- The loop of `ExchangeStatus`: `none` in the answer for no error.
  unfoldable pub exchange_loop : List (WireRead E) → Waited (Option (ExchangeError E))
  exchange_loop [] = record { answer = none; pongs = 0 }
  exchange_loop (read_failed e timeout ∷ rs) = ends (some (status_read_failed e))
  exchange_loop (received code body pong ∷ rs) =
      let rest = exchange_loop rs in
      if code == offset
      then ends (judged (judge_status codec version body p).1)
      else if code == disc_msg
      then ends (some (peer_left (decode_disconnect_reason s body).1))
      else if code == ping_msg
      then after_pong (λ e. some (pong_failed e)) rest pong
      else rest

  abbrev behind_write : Option E → Option E → List (WireRead E) → Waited (Option (ExchangeError E))
  behind_write (some e) deadline_error rs = ends (some (write_failed e))
  behind_write none (some e) rs = ends (some (deadline_failed e))
  behind_write none none rs = exchange_loop rs

  abbrev behind_encode :
      Result E Bytes
      → (Bytes → Option E)
      → Option E
      → List (WireRead E)
      → Waited (Option (ExchangeError E))
  behind_encode (err e) send deadline_error rs = ends (some (encode_failed e))
  behind_encode (ok payload) send deadline_error rs = behind_write (send payload) deadline_error rs

  -- `ExchangeStatus` of a connection whose ETH offset is `offset`; `send` is the error of `SendETHRaw`
  -- with the Status' code.
  unfoldable pub exchange_status :
      (Bytes → Option E) → Option E → List (WireRead E) → Waited (Option (ExchangeError E))
  exchange_status send deadline_error rs =
      behind_encode (encode_status codec version p) send deadline_error rs
