-- ===== src/Mplex/Drain.antt =====
-- `Drain`: the frames depend on the bytes that arrived, not on how the reads cut them up.
use raidan_sdk.Prelude.{
  ℕ, zero, suc, ◌≤◌, none, some, List, [], ◌∷◌, ◌++◌, Bytes, length, drop, append_assoc,
  length-drop, drop-append_le, Option-cases, ◌≡◌, refl, sym, ap, ◌∙◌, inl, inr, arith,
}
use raidan_sdk.Mplex.{Frame, Conn, ReadEnd, parse, extract, frames_of, absorb, drain, end_error}
use raidan_sdk.Mplex.Parse.{parse_used, parse-append}

extract_step :
    (fuel : ℕ) (b : Bytes) (f : Frame) (used : ℕ)
    → parse b ≡ some (f, used)
    → extract (suc fuel) b ≡ (f ∷ (extract fuel (drop used b)).0, (extract fuel (drop used b)).1)
unfolding extract
extract_step fuel b f used h = rw (h, extract)

extract_stop : (fuel : ℕ) (b : Bytes) → parse b ≡ none → extract fuel b ≡ ([], b)
unfolding extract
extract_stop zero b h = refl
extract_stop (suc fuel) b h = rw (h, extract)

-- Rounds beyond the length of the buffer change nothing.
extract-fuel : (k m : ℕ) (b : Bytes) → length b ≤ k → length b ≤ m → extract k b ≡ extract m b
extract-fuel zero m b hk hm = elim (Option-cases (parse b)) [
  | inl e ↦ extract_stop zero b e ∙ sym (extract_stop m b e)
  | inr ((f, used), e) ↦ absurd (omega (arith, parse_used b f used e))
]
extract-fuel (suc k) zero b hk hm = elim (Option-cases (parse b)) [
  | inl e ↦ extract_stop (suc k) b e ∙ sym (extract_stop zero b e)
  | inr ((f, used), e) ↦ absurd (omega (arith, parse_used b f used e))
]
extract-fuel (suc k) (suc m) b hk hm = elim (Option-cases (parse b)) [
  | inl e ↦ extract_stop (suc k) b e ∙ sym (extract_stop (suc m) b e)
  | inr ((f, used), e) ↦
      let shorter : length (drop used b) ≤ k =
        omega (arith, parse_used b f used e, length-drop used b) in
      let shorter' : length (drop used b) ≤ m =
        omega (arith, parse_used b f used e, length-drop used b) in
      rw (extract_step k b f used e, extract_step m b f used e)
        (ap (λ (r : List Frame × Bytes). (f ∷ r.0, r.1))
          (extract-fuel k m (drop used b) shorter shorter'))
]

abbrev join : List Frame → List Frame × Bytes → List Frame × Bytes
join fs r = (fs ++ r.0, r.1)

pub frames_of_found :
    (b : Bytes) (f : Frame) (used : ℕ)
    → parse b ≡ some (f, used)
    → frames_of b ≡ join (f ∷ []) (frames_of (drop used b))
frames_of_found b f used e =
    extract-fuel (length b) (suc (length b)) b (omega arith) (omega arith)
    ∙ extract_step (length b) b f used e
    ∙ ap (λ (r : List Frame × Bytes). join (f ∷ []) r)
        (extract-fuel (length b) (length (drop used b)) (drop used b)
          (omega (arith, length-drop used b)) (omega arith))

pub frames_of-none : (b : Bytes) → parse b ≡ none → frames_of b ≡ ([], b)
frames_of-none b e = extract_stop (length b) b e

-- Bytes that arrive later: the frames already whole stand, and the rest goes on from what was left.
frames_of-append_count :
    (k : ℕ) (b more : Bytes)
    → length b ≤ k
    → frames_of (b ++ more) ≡ join (frames_of b).0 (frames_of ((frames_of b).1 ++ more))
frames_of-append_count zero b more hk = elim (Option-cases (parse b)) [
  | inl e ↦ rw (frames_of-none b e) refl
  | inr ((f, used), e) ↦ absurd (omega (arith, parse_used b f used e))
]
frames_of-append_count (suc k) b more hk = elim (Option-cases (parse b)) [
  | inl e ↦ rw (frames_of-none b e) refl
  | inr ((f, used), e) ↦
      let shorter : length (drop used b) ≤ k =
        omega (arith, parse_used b f used e, length-drop used b) in
      frames_of_found (b ++ more) f used (parse-append b more f used e)
      ∙ rw (drop-append_le used b more (parse_used b f used e).1, frames_of_found b f used e)
          (ap (λ (r : List Frame × Bytes). join (f ∷ []) r)
            (frames_of-append_count k (drop used b) more shorter))
]

pub frames_of-append :
    (b more : Bytes)
    → frames_of (b ++ more) ≡ join (frames_of b).0 (frames_of ((frames_of b).1 ++ more))
frames_of-append b more = frames_of-append_count (length b) b more (omega arith)

-- Every byte that the reads of one `Drain` returned.
abbrev pub arrived : List Bytes → Bytes → Bytes
arrived [] last = last
arrived (chunk ∷ reads) last = chunk ++ arrived reads last

-- However the reads cut up the bytes that arrive, `Drain` returns the frames that stand at the front
-- of the old buffer with all those bytes behind it, keeps what is left after them as the new buffer,
-- and reports an error only if the last read failed otherwise than by its deadline.
pub drain-frames_of :
    {E : Type 0} (c : Conn) (reads : List Bytes) (last : Bytes) (e : ReadEnd E)
    → ((drain c reads last e).frames ≡ (frames_of (c.buf ++ arrived reads last)).0)
      × ((drain c reads last e).conn.buf ≡ (frames_of (c.buf ++ arrived reads last)).1)
      × ((drain c reads last e).error ≡ end_error e)
unfolding drain absorb
drain-frames_of c [] last e = (refl, refl, refl)
drain-frames_of c (chunk ∷ reads) last e =
    let whole : frames_of (c.buf ++ (chunk ++ arrived reads last))
        ≡ join (frames_of (c.buf ++ chunk)).0
            (frames_of ((frames_of (c.buf ++ chunk)).1 ++ arrived reads last)) =
      rw (← append_assoc) (frames_of-append (c.buf ++ chunk) (arrived reads last)) in
    let (fs, rest, err) = drain-frames_of (absorb c chunk).0 reads last e in
    (rw (whole, fs), rw (whole, rest), err)
