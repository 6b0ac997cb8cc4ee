-- ===== src/Eth/Dial/Retries.antt =====
-- How often a dial dials, with which fork IDs, and what a successful one has seen.
use raidan_sdk.Prelude.{
  true, false, Option, none, some, List, [], ◌∷◌, bytes_eq_refl, Bool-cases, ◌≡◌, ◌⊎◌, inl, inr,
  refl, ap, ◌∙◌, arith,
}
use raidan_sdk.Prelude.Result.{Result, ok, err}
use raidan_sdk.Rpc.ForkId.{ForkId}
use raidan_sdk.Eth.Caps.{Cap, Config, ConfigError, validate, capabilities}
use raidan_sdk.Eth.Conn.{
  Conn, HelloError, snap_offset_error, negotiation, eth_offset_error, no_common_eth, negotiate,
}
use raidan_sdk.Eth.Dial.{
  HelloReply, hello_failed, undecodable_hello, hello_disconnect, unexpected_code, hello,
  StatusEvent, status_failed, status_disconnect, status, status_ping, status_pong, other_message,
  Calls, DialError, zero_fork_id, fork_id_eq, checked, read_status_loop, exchange_status, on_hello,
  raw_dial, on_first, with_params, with_node, with_config, dial_with_key,
}

fork_id_eq_refl : (id : ForkId) → fork_id_eq id id ≡ true
fork_id_eq_refl id = ground (arith, bytes_eq_refl id.hash)

module _ {E : Type 0} where
  -- A Status with the fork ID is among the events.
  abbrev pub Announced : ForkId → List (StatusEvent E) → Type 0
  Announced id [] = ⊥
  Announced id (status id' o ∷ es) = (id ≡ id') ⊎ Announced id es
  Announced id (_ ∷ es) = Announced id es

  -- A raw dial returns no fork ID, or one that the peer's Status announced; where it returns a
  -- connection a Status was announced.
  abbrev Outcome : List (StatusEvent E) → Result (DialError E) (Conn E) × ForkId → Type 0
  Outcome es (ok c, id) = Announced id es
  Outcome es (err e, id) = (id ≡ zero_fork_id) ⊎ Announced id es

  checked-Outcome :
      (es : List (StatusEvent E)) (f : E → DialError E) (id : ForkId) (o : Option E)
      (next : Result (DialError E) (Conn E) × ForkId)
      → (id ≡ zero_fork_id) ⊎ Announced id es
      → Outcome es next
      → Outcome es (checked f id o next)
  checked-Outcome es f id (some e) next h k = h
  checked-Outcome es f id none next h k = k

  -- What holds of the events behind one holds of them all.
  Announced-cons :
      (e : StatusEvent E) (es : List (StatusEvent E)) (id : ForkId)
      → Announced id es
      → Announced id (e ∷ es)
  Announced-cons (status_failed e) es id h = h
  Announced-cons (status_disconnect r) es id h = h
  Announced-cons (status id' o) es id h = inr h
  Announced-cons (status_ping o) es id h = h
  Announced-cons status_pong es id h = h
  Announced-cons other_message es id h = h

  read_status_loop-Outcome :
      (calls : Calls E) (c : Conn E) (es : List (StatusEvent E))
      → Outcome es (read_status_loop calls c es)
  unfolding read_status_loop
  read_status_loop-Outcome calls c [] = inl refl
  read_status_loop-Outcome calls c (status_failed e ∷ es) = inl refl
  read_status_loop-Outcome calls c (status_disconnect r ∷ es) = inl refl
  read_status_loop-Outcome calls c (status id o ∷ es) =
      let here : Announced id (status id o ∷ es) = inl refl in
      checked-Outcome (status id o ∷ es) _ id o _ (inr here) (
        checked-Outcome (status id o ∷ es) _ id calls.status_clear_error _ (inr here)
          (checked-Outcome (status id o ∷ es) _ id calls.status_write_error _ (inr here) here))
  read_status_loop-Outcome calls c (status_ping o ∷ es) =
      checked-Outcome es _ zero_fork_id o _ (inl refl) (read_status_loop-Outcome calls c es)
  read_status_loop-Outcome calls c (status_pong ∷ es) = read_status_loop-Outcome calls c es
  read_status_loop-Outcome calls c (other_message ∷ es) = read_status_loop-Outcome calls c es

  exchange_status-Outcome :
      (calls : Calls E) (r : Result HelloError (Conn E))
      → Outcome calls.status_events (exchange_status calls r)
  exchange_status-Outcome calls (err (snap_offset_error c)) =
      checked-Outcome calls.status_events _ zero_fork_id calls.hello_clear_error _ (inl refl)
        (inl refl)
  exchange_status-Outcome calls (err (negotiation c)) = inl refl
  exchange_status-Outcome calls (err (eth_offset_error c)) = inl refl
  exchange_status-Outcome calls (err no_common_eth) = inl refl
  exchange_status-Outcome calls (ok c) =
      let es : List (StatusEvent E) = calls.status_events in
      checked-Outcome es _ zero_fork_id calls.hello_clear_error _ (inl refl) (
        checked-Outcome es _ zero_fork_id calls.status_encode_error _ (inl refl) (
          checked-Outcome es _ zero_fork_id calls.status_deadline_error _ (inl refl)
            (read_status_loop-Outcome calls c es)))

  on_hello-Outcome :
      (calls : Calls E) (caps : List Cap) (r : HelloReply E)
      → Outcome calls.status_events (on_hello calls caps r)
  on_hello-Outcome calls caps (hello_failed e) = inl refl
  on_hello-Outcome calls caps (undecodable_hello e) = inl refl
  on_hello-Outcome calls caps (hello_disconnect r) = inl refl
  on_hello-Outcome calls caps (unexpected_code code) = inl refl
  on_hello-Outcome calls caps (hello o peer_caps) =
      checked-Outcome calls.status_events _ zero_fork_id o _ (inl refl)
        (exchange_status-Outcome calls (negotiate caps peer_caps))

  raw_dial-Outcome :
      (caps : List Cap) (calls : Calls E) → Outcome calls.status_events (raw_dial caps calls)
  unfolding raw_dial
  raw_dial-Outcome caps calls =
      let es : List (StatusEvent E) = calls.status_events in
      checked-Outcome es _ zero_fork_id calls.rlpx_error _ (inl refl) (
        checked-Outcome es _ zero_fork_id calls.hello_deadline_error _ (inl refl) (
          checked-Outcome es _ zero_fork_id calls.hello_encode_error _ (inl refl) (
            checked-Outcome es _ zero_fork_id calls.hello_write_error _ (inl refl)
              (on_hello-Outcome calls caps calls.hello_reply))))

  -- No raw dial; one, with our fork ID; or two, the second with one that the peer's Status announced to
  -- the first.
  abbrev pub Retries : (ForkId → Calls E) → Result E ForkId → List ForkId → Type 0
  Retries first params [] = Unit {0}
  Retries first params (ours ∷ []) = params ≡ ok ours
  Retries first params (ours ∷ id ∷ []) =
      (params ≡ ok ours) × Announced id (first ours).status_events
  Retries first params (_ ∷ _ ∷ _ ∷ _) = ⊥

  on_first-Retries :
      (caps : List Cap) (ours : ForkId) (first second : ForkId → Calls E)
      (r : Result (DialError E) (Conn E)) (id : ForkId)
      → Outcome (first ours).status_events (r, id)
      → Retries first (ok ours) (on_first caps ours second (r, id)).presented
  on_first-Retries caps ours first second (ok c) id h = refl
  on_first-Retries caps ours first second (err e) id h =
      elim (Bool-cases (fork_id_eq id zero_fork_id)) [
        | inl none_came ↦ rw none_came refl
        | inr came ↦ rw came (refl, sent h came)
      ]
    where
      sent :
          (id ≡ zero_fork_id) ⊎ Announced id (first ours).status_events
          → fork_id_eq id zero_fork_id ≡ false
          → Announced id (first ours).status_events
      sent (inl z) differs =
          let yes : fork_id_eq id zero_fork_id ≡ true =
            ap (λ (x : ForkId). fork_id_eq x zero_fork_id) z ∙ fork_id_eq_refl zero_fork_id in
          absurd (ground arith)
      sent (inr a) differs = a

  with_params-Retries :
      (caps : List Cap) (first second : ForkId → Calls E) (params : Result E ForkId)
      → Retries first params (with_params caps first second params).presented
  with_params-Retries caps first second (err e) = tt
  with_params-Retries caps first second (ok ours) =
      on_first-Retries caps ours first second (raw_dial caps (first ours)).0
        (raw_dial caps (first ours)).1 (raw_dial-Outcome caps (first ours))

  with_node-Retries :
      (caps : List Cap) (first second : ForkId → Calls E) (params : Result E ForkId) (o : Option E)
      → Retries first params (with_node caps first second params o).presented
  with_node-Retries caps first second params (some e) = tt
  with_node-Retries caps first second params none = with_params-Retries caps first second params

  with_config-Retries :
      (config : Config) (first second : ForkId → Calls E) (node_error : Option E)
      (params : Result E ForkId) (o : Option ConfigError)
      → Retries first params (with_config config first second node_error params o).presented
  with_config-Retries config first second node_error params (some e) = tt
  with_config-Retries config first second node_error params none =
      with_node-Retries (capabilities config) first second params node_error

  -- A dial makes at most two raw dials. The first presents the fork ID of the chain parameters, and the
  -- second, where there is one, a fork ID that the peer's Status announced to the first.
  pub dial_with_key-Retries :
      (config : Config) (first second : ForkId → Calls E) (node_error : Option E)
      (params : Result E ForkId)
      → Retries first params (dial_with_key config first second node_error params).presented
  unfolding dial_with_key
  dial_with_key-Retries config first second node_error params =
      with_config-Retries config first second node_error params (validate config)

  -- A raw dial that returns a connection has met a Status of the peer.
  pub raw_dial-Announced :
      (caps : List Cap) (calls : Calls E) (c : Conn E) (id : ForkId)
      → raw_dial caps calls ≡ (ok c, id)
      → Announced id calls.status_events
  raw_dial-Announced caps calls c id h =
      go (raw_dial caps calls).0 (raw_dial caps calls).1 (raw_dial-Outcome caps calls)
        (ap (λ (x : Result (DialError E) (Conn E) × ForkId). x.0) h)
        (ap (λ (x : Result (DialError E) (Conn E) × ForkId). x.1) h)
    where
      go :
          (r : Result (DialError E) (Conn E)) (i : ForkId)
          → Outcome calls.status_events (r, i)
          → r ≡ ok c
          → i ≡ id
          → Announced id calls.status_events
      go (ok c') i o e q = rw (← q) o
      go (err x) i o e q = absurd (ground arith)
