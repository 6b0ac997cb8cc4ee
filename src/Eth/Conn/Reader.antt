-- ===== src/Eth/Conn/Reader.antt =====
-- The background reader against its consumers: no message is lost, reordered or passed over in silence.
use raidan_sdk.Prelude.{
  suc, ◌≤◌, Bool, true, false, none, some, List, [], ◌∷◌, ◌++◌, length, length-append, append_assoc,
  append-nil, ltb, if◌then◌else◌, Bool-cases, ◌≡◌, inl, inr, refl, sym, ap, ◌∙◌, arith,
}
use raidan_sdk.Eth.Conn.{
  ConnMsg, Conn, queue_capacity, Event, read_failed, disconnect, ping, pong, message,
  set_disconnect_reason, set_read_error, queue_message, read_round,
}

-- The two sides of the queue: the reader meets an event, a consumer takes a message.
pub data Action (E : Type 0) : Type 0 where
  reads : Event E → Action E
  takes : Action E

-- The connection, and the messages that the consumers have taken.
pub record World (E : Type 0) : Type 0 where
  pub conn : Conn E
  pub taken : List ConnMsg

module _ {E : Type 0} where
  abbrev take_from : World E → List ConnMsg → World E
  take_from w [] = w
  take_from w (m ∷ ms) = record { conn = record w.conn { msgs = ms }; taken = w.taken ++ (m ∷ []) }

  -- A reader that has returned reads no more; a consumer takes what is queued.
  abbrev pub act : Action E → World E → World E
  act (reads e) w = if w.conn.dead then w else record w { conn = read_round e w.conn }
  act takes w = take_from w w.conn.msgs

  abbrev pub run : List (Action E) → World E → World E
  run [] w = w
  run (a ∷ as') w = run as' (act a w)

  -- The messages among the events, in their order.
  abbrev pub arriving : List (Action E) → List ConnMsg
  arriving [] = []
  arriving (reads (message m) ∷ as') = m ∷ arriving as'
  arriving (_ ∷ as') = arriving as'

  -- The messages that are through or queued.
  abbrev pub through : World E → List ConnMsg
  through w = w.taken ++ w.conn.msgs

  take_from-through :
      (w : World E) (ms : List ConnMsg) → w.conn.msgs ≡ ms → through (take_from w ms) ≡ through w
  take_from-through w [] h = refl
  take_from-through w (m ∷ ms) h =
      append_assoc w.taken (m ∷ []) ms ∙ ap (λ (l : List ConnMsg). w.taken ++ l) (sym h)

  take_from-dead : (w : World E) (ms : List ConnMsg) → (take_from w ms).conn.dead ≡ w.conn.dead
  take_from-dead w [] = refl
  take_from-dead w (m ∷ ms) = refl

  -- A dead connection stays dead.
  run-dead :
      (as' : List (Action E)) (w : World E) → w.conn.dead ≡ true → (run as' w).conn.dead ≡ true
  run-dead [] w h = h
  run-dead (reads e ∷ as') w h =
      ap
        (λ (b : Bool).
          (run as' (if b then w else record w { conn = read_round e w.conn })).conn.dead)
        h
      ∙ run-dead as' w h
  run-dead (takes ∷ as') w h =
      run-dead as' (take_from w w.conn.msgs) (take_from-dead w w.conn.msgs ∙ h)

  -- A round behind which the reader lives on has queued the message that it read.
  round_alive :
      (e : Event E) (w : World E)
      → (read_round e w.conn).dead ≡ false
      → through (record w { conn = read_round e w.conn }) ≡ through w ++ arriving (reads e ∷ [])
  unfolding read_round queue_message set_read_error set_disconnect_reason
  round_alive (read_failed e) w h = absurd (ground arith)
  round_alive (disconnect reason) w h = absurd (ground arith)
  round_alive (ping (some e)) w h = absurd (ground arith)
  round_alive (ping none) w h = sym (append-nil (through w))
  round_alive pong w h = sym (append-nil (through w))
  round_alive (message m) w h = elim (Bool-cases (ltb (length w.conn.msgs) queue_capacity)) [
    | inl room ↦ rw room (sym (append_assoc w.taken w.conn.msgs (m ∷ [])))
    | inr full ↦ absurd (ground arith)
  ]

  arriving-cons :
      (e : Event E) (as' : List (Action E))
      → arriving (reads e ∷ as') ≡ arriving (reads e ∷ []) ++ arriving as'
  arriving-cons (read_failed e) as' = refl
  arriving-cons (disconnect r) as' = refl
  arriving-cons (ping o) as' = refl
  arriving-cons pong as' = refl
  arriving-cons (message m) as' = refl

  run-through :
      (as' : List (Action E)) (w : World E)
      → w.conn.dead ≡ false
      → (run as' w).conn.dead ≡ false
      → through (run as' w) ≡ through w ++ arriving as'
  run-through [] w h k = sym (append-nil (through w))
  run-through (takes ∷ as') w h k =
      run-through as' (take_from w w.conn.msgs) (take_from-dead w w.conn.msgs ∙ h) k
      ∙ ap (λ (l : List ConnMsg). l ++ arriving as') (take_from-through w w.conn.msgs refl)
  run-through (reads e ∷ as') w h k =
      let w' : World E = record w { conn = read_round e w.conn } in
      let goes : run (reads e ∷ as') w ≡ run as' w' =
        ap (λ (b : Bool). run as' (if b then w else w')) h in
      let later : (run as' w').conn.dead ≡ false =
        sym (ap (λ (x : World E). x.conn.dead) goes) ∙ k in
      elim (Bool-cases w'.conn.dead) [
        | inl died ↦ absurd (ground (arith, run-dead as' w' died))
        | inr lives ↦
            ap through goes
            ∙ run-through as' w' lives later
            ∙ ap (λ (l : List ConnMsg). l ++ arriving as') (round_alive e w lives)
            ∙ append_assoc (through w) (arriving (reads e ∷ [])) (arriving as')
            ∙ ap (λ (l : List ConnMsg). through w ++ l) (sym (arriving-cons e as'))
      ]

  -- A connection that was just set up.
  abbrev pub start : Conn E → World E
  start c = record { conn = c; taken = [] }

  -- However the reader and the consumers interleave, as long as the connection is alive each message
  -- that arrived was taken or is queued, once and in the order of arrival: for a connection that starts
  -- alive with an empty queue.
  pub run-arriving :
      (as' : List (Action E)) (c : Conn E)
      → c.dead ≡ false
      → c.msgs ≡ []
      → (run as' (start c)).conn.dead ≡ false
      → through (run as' (start c)) ≡ arriving as'
  run-arriving as' c h empty k =
      run-through as' (start c) h k ∙ ap (λ (l : List ConnMsg). l ++ arriving as') empty

  abbrev IsRoomy : World E → Type 0
  IsRoomy w = length w.conn.msgs ≤ queue_capacity

  round_roomy :
      (e : Event E) (c : Conn E)
      → length c.msgs ≤ queue_capacity
      → length (read_round e c).msgs ≤ queue_capacity
  unfolding read_round queue_message set_read_error set_disconnect_reason
  round_roomy (read_failed e) c h = h
  round_roomy (disconnect reason) c h = ground arith
  round_roomy (ping (some e)) c h = h
  round_roomy (ping none) c h = h
  round_roomy pong c h = h
  round_roomy (message m) c h = elim (Bool-cases (ltb (length c.msgs) queue_capacity)) [
    | inl room ↦ rw room (ground (arith, length-append c.msgs (m ∷ [])))
    | inr full ↦ rw full h
  ]

  take_from-IsRoomy :
      (w : World E) (ms : List ConnMsg) → w.conn.msgs ≡ ms → IsRoomy w → IsRoomy (take_from w ms)
  take_from-IsRoomy w [] e h = h
  take_from-IsRoomy w (m ∷ ms) e h =
      let longer : length w.conn.msgs ≡ suc (length ms) = ap length e in omega arith

  either-IsRoomy :
      (b : Bool) (as' : List (Action E)) (x y : World E)
      → IsRoomy (run as' x)
      → IsRoomy (run as' y)
      → IsRoomy (run as' (if b then x else y))
  either-IsRoomy true as' x y p q = p
  either-IsRoomy false as' x y p q = q

  run-IsRoomy : (as' : List (Action E)) (w : World E) → IsRoomy w → IsRoomy (run as' w)
  run-IsRoomy [] w h = h
  run-IsRoomy (takes ∷ as') w h =
      run-IsRoomy as' (take_from w w.conn.msgs) (take_from-IsRoomy w w.conn.msgs refl h)
  run-IsRoomy (reads e ∷ as') w h =
      let w' : World E = record w { conn = read_round e w.conn } in
      either-IsRoomy w.conn.dead as' w w' (run-IsRoomy as' w h)
        (run-IsRoomy as' w' (round_roomy e w.conn h))

  -- However the reader and the consumers interleave, the queue never holds more than its capacity.
  pub run-capacity :
      (as' : List (Action E)) (c : Conn E)
      → c.msgs ≡ []
      → length (run as' (start c)).conn.msgs ≤ queue_capacity
  run-capacity as' c empty =
      let small : length c.msgs ≡ 0 = ap length empty in
      run-IsRoomy as' (start c) (omega (arith, small))
