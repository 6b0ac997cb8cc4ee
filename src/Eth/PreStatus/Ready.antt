-- ===== src/Eth/PreStatus/Ready.antt =====
-- The connections that the dials before and behind the Status exchange return, and their sockets.
use raidan_sdk.Prelude.{
  ℕ, ◌≤◌, false, Option, none, some, List, Bytes, append-nil, ltb, ◌==◌, Bool-cases, ◌≡◌, inl, inr,
  refl, arith,
}
use raidan_sdk.Prelude.Result.{Result, ok, err}
use raidan_sdk.Rlpx.Disconnect.{RlpStream}
use raidan_sdk.Eth.Caps.{Cap, ConfigError, validate, capabilities, eth_capabilities}
use raidan_sdk.Eth.Conn.{Conn, HelloError, negotiate}
use raidan_sdk.Eth.Dial.{
  HelloReply, hello_failed, undecodable_hello, hello_disconnect, unexpected_code, hello, DialError,
}
use raidan_sdk.Eth.Wire.{WireRead}
use raidan_sdk.Eth.Wire.Offset.{negotiate-eth_offset}
use raidan_sdk.Eth.PreStatus.Versions.{negotiate-eth_capabilities}
use raidan_sdk.Eth.Status.{StatusCodec, Params, ExchangeError}
use raidan_sdk.Eth.PreStatus.{
  up_to, PreStatusConn, PreCalls, Socket, unopened, opened, closed, unless_error, on_negotiation,
  on_reply, on_rlpx, on_params, on_node, on_config, pre_status_capabilities,
  dial_pre_status_with_key, ReadyError, on_exchange, on_dialled, dial_ready, zero_params,
}

up_to-capabilities :
    (want : ℕ) → 68 ≤ want → pre_status_capabilities (up_to want) ≡ eth_capabilities want
unfolding pre_status_capabilities capabilities
up_to-capabilities want w =
    let given : (want == 0) ≡ false = ground arith in rw given (append-nil _)

module _ {E : Type 0} where
  -- A connection has an open socket, a version up to the wanted one and its ETH messages behind the base
  -- protocol; an error leaves no socket open.
  abbrev Clean : ℕ → Result (DialError E) PreStatusConn → Socket → Type 0
  Clean want (ok c) opened = (c.eth_version ≤ want) × (c.eth_offset ≡ 16)
  Clean want (ok c) _ = ⊥
  Clean want (err e) opened = ⊥
  Clean want (err e) _ = Unit {0}

  abbrev IsClean : ℕ → Result (DialError E) PreStatusConn × Socket → Type 0
  IsClean want (r, s) = Clean want r s

  unless_error-IsClean :
      (want : ℕ) (f : E → DialError E) (o : Option E)
      (next : Result (DialError E) PreStatusConn × Socket)
      → IsClean want next
      → IsClean want (unless_error f o next)
  unless_error-IsClean want f (some e) next h = tt
  unless_error-IsClean want f none next h = h

  on_negotiation-IsClean :
      (want : ℕ) (params : Params) (calls : PreCalls E) (remote : List Cap)
      (r : Result HelloError (Conn E))
      → 68 ≤ want
      → negotiate (eth_capabilities want) remote ≡ r
      → IsClean want (on_negotiation params calls remote r)
  on_negotiation-IsClean want params calls remote (err e) w h = tt
  on_negotiation-IsClean want params calls remote (ok c) w h =
      unless_error-IsClean want _ calls.clear_error _ (
        negotiate-eth_capabilities want remote c w h,
        negotiate-eth_offset (eth_capabilities want) remote c h,
      )

  on_reply-IsClean :
      (want : ℕ) (params : Params) (calls : PreCalls E) (r : HelloReply E)
      → 68 ≤ want
      → IsClean want (on_reply params (eth_capabilities want) calls r)
  on_reply-IsClean want params calls (hello_failed e) w = tt
  on_reply-IsClean want params calls (undecodable_hello e) w = tt
  on_reply-IsClean want params calls (hello_disconnect reason) w = tt
  on_reply-IsClean want params calls (unexpected_code code) w = tt
  on_reply-IsClean want params calls (hello o remote) w = unless_error-IsClean want _ o _ (
      on_negotiation-IsClean want params calls remote (negotiate (eth_capabilities want) remote) w
        refl)

  on_rlpx-IsClean :
      (want : ℕ) (params : Params) (calls : PreCalls E) (o : Option E)
      → 68 ≤ want
      → IsClean want (on_rlpx params (eth_capabilities want) calls o)
  on_rlpx-IsClean want params calls (some e) w = tt
  on_rlpx-IsClean want params calls none w =
      unless_error-IsClean want _ calls.hello_deadline_error _ (
        unless_error-IsClean want _ calls.hello_encode_error _ (
          unless_error-IsClean want _ calls.hello_write_error _
            (on_reply-IsClean want params calls calls.hello_reply w)))

  dial-IsClean :
      (want : ℕ) (calls : PreCalls E)
      → 68 ≤ want
      → IsClean want (dial_pre_status_with_key (up_to want) calls)
  unfolding dial_pre_status_with_key
  dial-IsClean want calls w = checked (validate (up_to want))
    where
      offered :
          (params : Params)
          → IsClean want
              (on_rlpx params (pre_status_capabilities (up_to want)) calls calls.rlpx_error)
      offered params =
          rw (up_to-capabilities want w) (on_rlpx-IsClean want params calls calls.rlpx_error w)

      fetched : (o : Option (Result E Params)) → IsClean want (on_params (up_to want) calls o)
      fetched none = offered zero_params
      fetched (some (err e)) = tt
      fetched (some (ok p)) = offered p

      parsed : (o : Option E) → IsClean want (on_node (up_to want) calls o)
      parsed (some e) = tt
      parsed none = fetched calls.fetched

      checked : (o : Option ConfigError) → IsClean want (on_config (up_to want) calls o)
      checked (some e) = tt
      checked none = parsed calls.node_error

  -- How `DialReady` stands: with an answer it has an open socket exactly where that is a connection, which
  -- is of the wanted version; without one it still reads from an open socket.
  abbrev Stands : ℕ → Option (Result (ReadyError E) PreStatusConn) → Socket → Type 0
  Stands want (some (ok c)) opened = (68 ≤ want) × (c.eth_version ≡ want) × (c.eth_offset ≡ 16)
  Stands want (some (ok c)) _ = ⊥
  Stands want (some (err e)) opened = ⊥
  Stands want (some (err e)) _ = Unit {0}
  Stands want none opened = Unit {0}
  Stands want none _ = ⊥

  abbrev pub IsKept : ℕ → Option (Result (ReadyError E) PreStatusConn) × Socket → Type 0
  IsKept want (r, s) = Stands want r s

module _ {E : Type 0} (codec : StatusCodec E) (s : RlpStream) where
  on_exchange-IsKept :
      (want : ℕ) (c : PreStatusConn) (o : Option (Option (ExchangeError E)))
      → 68 ≤ want
      → c.eth_version ≡ want
      → c.eth_offset ≡ 16
      → IsKept want (on_exchange codec s c o)
  on_exchange-IsKept want c none h v e = tt
  on_exchange-IsKept want c (some none) h v e = (h, v, e)
  on_exchange-IsKept want c (some (some x)) h v e = tt

  on_dialled-IsKept :
      (want : ℕ) (send : Bytes → Option E) (deadline_error : Option E) (rs : List (WireRead E))
      (r : Result (DialError E) PreStatusConn × Socket)
      → 68 ≤ want
      → IsClean want r
      → IsKept want (on_dialled codec s want send deadline_error rs r)
  on_dialled-IsKept want send deadline_error rs (err e, unopened) h k = tt
  on_dialled-IsKept want send deadline_error rs (err e, closed) h k = tt
  on_dialled-IsKept want send deadline_error rs (err e, opened) h k = absurd k
  on_dialled-IsKept want send deadline_error rs (ok c, unopened) h k = absurd k
  on_dialled-IsKept want send deadline_error rs (ok c, closed) h k = absurd k
  on_dialled-IsKept want send deadline_error rs (ok c, opened) h k =
      elim (Bool-cases (ltb c.eth_version want)) [
        | inl e ↦ rw e tt
        | inr e ↦ rw e (on_exchange-IsKept want c _ h (at_wanted c.eth_version k.0 e) k.1)
      ]
    where
      at_wanted : (v : ℕ) → v ≤ want → ltb v want ≡ false → v ≡ want
      at_wanted v below above = ground arith

  -- `DialReady` returns a connection only for a wanted version from 68 on, of exactly that version, with its
  -- ETH messages from code 16 on and its socket open; with an error it leaves no socket open, and its
  -- socket is open while it reads.
  pub dial_ready-IsKept :
      (want : ℕ) (calls : PreCalls E) (send : Bytes → Option E) (deadline_error : Option E)
      (rs : List (WireRead E))
      → IsKept want (dial_ready codec s want calls send deadline_error rs)
  unfolding dial_ready
  dial_ready-IsKept want calls send deadline_error rs = elim (Bool-cases (ltb want 68)) [
    | inl e ↦ rw e tt
    | inr e ↦ rw e (
        on_dialled-IsKept want send deadline_error rs _ (ground arith)
          (dial-IsClean want calls (ground arith)))
  ]
