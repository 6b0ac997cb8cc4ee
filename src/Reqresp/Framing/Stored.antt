-- ===== src/Reqresp/Framing/Stored.antt =====
-- A codec that keeps the contract of `SnappyLaws`: it stores its input as it is.
use raidan_sdk.Prelude.{
  ℕ, ◌<◌, false, ◌++◌, Bytes, length, take, length-take, take-append, length-append, ltb,
  if◌then◌else◌, Bool-cases, ◌≡◌, inl, inr, refl, arith,
}
use raidan_sdk.Prelude.Result.{Result, ok, err}
use raidan_sdk.Reqresp.Framing.{StreamError, Snappy, short_read}
use raidan_sdk.Reqresp.Framing.Limits.{SnappyLaws}

abbrev stored_read : Bytes → StreamError → ℕ → Result StreamError Bytes × ℕ
stored_read b e n =
    if ltb (length b) n then (err (short_read b e), length b) else (ok (take n b), n)

abbrev pub stored : Snappy
stored = record { compress = λ p. p; read = stored_read }

stored_exact :
    (b : Bytes) (e : StreamError) (n : ℕ) (p : Bytes) (used : ℕ)
    → stored_read b e n ≡ (ok p, used)
    → length p ≡ n
stored_exact b e n p used h = elim (Bool-cases (ltb (length b) n)) [
  | inl less ↦ absurd (ground arith)
  | inr enough ↦ ground (arith, length-take n b)
]

stored-compress :
    (p more : Bytes) (e : StreamError)
    → 0 < length p
    → stored_read (p ++ more) e (length p) ≡ (ok p, length p)
stored-compress p more e h =
    let enough : ltb (length (p ++ more)) (length p) ≡ false =
      ground (arith, length-append p more) in
    rw (enough, take-append p more)

pub stored_laws : SnappyLaws stored
stored_laws = record {
  read_exact = stored_exact;
  read-compress = stored-compress;
  compress-empty = refl;
  length-compress = λ p. omega arith;
}
