-- ===== src/Wit/Reads.antt =====
-- The read loop hands over messages of WIT/1 and no others.
use raidan_sdk.Prelude.{
  ℕ, ◌+◌, ◌-◌, ◌%◌, ◌^◌, ◌<◌, ◌||◌, none, some, List, [], ◌∷◌, Bytes, ltb, leb, Bool-cases, ◌≡◌,
  ◌⊎◌, inl, inr, sym, arith,
}
use raidan_sdk.Prelude.Result.{ok}
use raidan_sdk.Wit.{WitConn, WitEvent, wit_failed, wit_disconnect, wit_ping, wit_frame, wit_read}

module _ {E : Type 0} where
  -- A frame of the code and the payload is among the events.
  abbrev pub Arrived : ℕ → Bytes → List (WitEvent E) → Type 0
  Arrived code p [] = ⊥
  Arrived code p (wit_frame code' p' ∷ es) = ((code ≡ code') × (p ≡ p')) ⊎ Arrived code p es
  Arrived code p (_ ∷ es) = Arrived code p es

  -- What the read loop gives is a message that arrived at the offset, with one of the four codes of
  -- WIT/1, for an offset whose messages do not pass 2^64.
  pub wit_read-Arrived :
      (c : WitConn) (es : List (WitEvent E)) (code : ℕ) (p : Bytes)
      → c.offset + 4 < 2 ^ 64
      → wit_read c es ≡ some (ok (code, p))
      → (code < 4) × Arrived (c.offset + code) p es
  unfolding wit_read
  wit_read-Arrived c [] code p h e = absurd (ground arith)
  wit_read-Arrived c (wit_failed x ∷ es) code p h e = absurd (ground arith)
  wit_read-Arrived c (wit_disconnect r ∷ es) code p h e = absurd (ground arith)
  wit_read-Arrived c (wit_ping (some x) ∷ es) code p h e = absurd (ground arith)
  wit_read-Arrived c (wit_ping none ∷ es) code p h e = wit_read-Arrived c es code p h e
  wit_read-Arrived c (wit_frame k q ∷ es) code p h e =
      elim (Bool-cases (ltb k c.offset || leb ((c.offset + 4) % 2 ^ 64) k)) [
        | inl other ↦
            let (small, there) = wit_read-Arrived c es code p h (ground arith) in (small, inr there)
        | inr own ↦
            let given : (k - c.offset ≡ code) × (q ≡ p) = ground arith in
            (ground arith, inl (ground arith, sym given.1))
      ]
