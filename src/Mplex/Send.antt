-- ===== src/Mplex/Send.antt =====
-- What `send` lets through, what it counts, and what it reports.
use raidan_sdk.Prelude.{
  ℕ, ◌+◌, ◌%◌, ◌^◌, ◌≤◌, Option, none, [], ◌∷◌, Bytes, length, take, length-append, length-take,
  bit_or, ltb, ◌*◌, ◌≡◌, ◌≢◌, ◌⊎◌, inl, inr, Bool-cases, codes, true, false, arith,
}
use raidan_sdk.Uvarint.{append_uvarint, groups}
use raidan_sdk.Uvarint.RoundTrip.{length-groups}
use raidan_sdk.Session.{Write}
use raidan_sdk.Mplex.{
  Conn, Sent, max_send, max_frame, flag_reset_init, frame_bytes, send, send_frame, dialled,
  protocol_id,
}

-- The cap is at most `max_send`, and no more than the cap has been written.
pub record IsCapped (c : Conn) : Type 0 where
  pub limit_bound : c.limit ≤ max_send
  pub sent_bound : c.sent ≤ c.limit

pub dialled-IsCapped : (requested : ℕ) → IsCapped (dialled requested)
unfolding dialled
dialled-IsCapped requested = ground arith

length-append_uvarint : (b : Bytes) (x : ℕ) → length (append_uvarint b x) ≤ length b + 10
unfolding append_uvarint
length-append_uvarint b x = omega (arith, length-append b (groups 9 x), length-groups 9 x)

-- A header and a length take ten bytes each at most.
pub length-frame_bytes :
    (id flag : ℕ) (payload : Bytes) → length (frame_bytes id flag payload) ≤ 20 + length payload
unfolding frame_bytes
length-frame_bytes id flag payload =
    let header : Bytes = append_uvarint [] (bit_or (id * 8 % 2 ^ 64) flag) in
    omega (
      arith,
      length-append (append_uvarint header (length payload)) payload,
      length-append_uvarint header (length payload),
      length-append_uvarint [] (bit_or (id * 8 % 2 ^ 64) flag),
    )

-- The guards of `Frame` and `send` together.
pub record Passes (c : Conn) (id flag : ℕ) (payload : Bytes) : Type 0 where
  pub flag_defined : flag ≤ flag_reset_init
  pub payload_fits : length payload ≤ max_frame
  pub stream_fits : id ≤ 2 ^ 60
  pub cap_holds : c.sent + length (frame_bytes id flag payload) ≤ c.limit

-- What the observer is told of one frame.
abbrev pub report : ℕ → ℕ → Bytes → Write
report id flag payload = record {
  protocol = codes "mplex";
  code = flag;
  protocol_id = protocol_id;
  topic = [];
  payload = frame_bytes id flag payload;
  raw = true;
}

module _ {E : Type 0} (write : Bytes → ℕ × Option E) where
  -- `io.Writer` never reports more bytes than it was given.
  abbrev pub CountsWithin : Type 0
  CountsWithin = (b : Bytes) → (write b).0 ≤ length b

  module _ (c : Conn) (id flag : ℕ) (payload : Bytes) where
    abbrev outcome : Sent E
    outcome = send_frame write c id flag payload

    -- Every call of `Frame` keeps the connection within its cap, with a writer that counts no more
    -- than it was given: the cap is the same, and the count grows by the bytes that the connection
    -- took.
    pub send_frame-IsCapped :
        CountsWithin
        → IsCapped c
        → IsCapped outcome.conn
          × (outcome.conn.sent ≡ c.sent + length outcome.wire)
          × (outcome.conn.limit ≡ c.limit)
    unfolding send_frame send
    send_frame-IsCapped within h =
        let frame : Bytes = frame_bytes id flag payload in
        ground (
          arith,
          h,
          length-frame_bytes id flag payload,
          within frame,
          length-take (write frame).0 frame,
        )

    -- On a capped connection a frame that passes the guards is reported whole, once, and the writer
    -- is given it and takes a prefix of it.
    pub send_frame-Passes :
        IsCapped c
        → Passes c id flag payload
        → (outcome.observed ≡ report id flag payload ∷ [])
          × (outcome.wire
              ≡ take (write (frame_bytes id flag payload)).0 (frame_bytes id flag payload))
    unfolding send_frame send
    send_frame-Passes h p = ground (arith, h, p, length-frame_bytes id flag payload)

    -- On a capped connection a frame that does not pass is an error: nothing is reported or written,
    -- and the connection is as before.
    pub send_frame_refuses :
        IsCapped c
        → ¬ Passes c id flag payload
        → (outcome.observed ≡ [])
          × (outcome.wire ≡ [])
          × (outcome.conn ≡ c)
          × (outcome.error ≢ none)
    unfolding send_frame send
    send_frame_refuses h np =
        refuse np (Bool-cases (ltb flag_reset_init flag))
          (Bool-cases (ltb max_frame (length payload))) (Bool-cases (ltb (2 ^ 60) id))
          (Bool-cases (ltb c.limit (c.sent + length (frame_bytes id flag payload))))
      where
        Refused : Type 0
        Refused =
            (outcome.observed ≡ [])
            × (outcome.wire ≡ [])
            × (outcome.conn ≡ c)
            × (outcome.error ≢ none)

        refuse :
            ¬ Passes c id flag payload
            → (ltb flag_reset_init flag ≡ true) ⊎ (ltb flag_reset_init flag ≡ false)
            → (ltb max_frame (length payload) ≡ true) ⊎ (ltb max_frame (length payload) ≡ false)
            → (ltb (2 ^ 60) id ≡ true) ⊎ (ltb (2 ^ 60) id ≡ false)
            → (ltb c.limit (c.sent + length (frame_bytes id flag payload)) ≡ true)
              ⊎ (ltb c.limit (c.sent + length (frame_bytes id flag payload)) ≡ false)
            → Refused
        refuse np (inl a) _ _ _ = ground arith
        refuse np (inr a) (inl b) _ _ = ground arith
        refuse np (inr a) (inr b) (inl d) _ = ground arith
        refuse np (inr a) (inr b) (inr d) (inl o) =
            ground (arith, h, length-frame_bytes id flag payload)
        refuse np (inr a) (inr b) (inr d) (inr o) = absurd (np (ground arith))
