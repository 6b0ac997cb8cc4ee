-- ===== src/Reqresp/Framing/Request.antt =====
-- The read of a request body that was written in the canonical form.
use raidan_sdk.Prelude.{
  ℕ, ◌+◌, ◌-◌, ◌/◌, ◌≤◌, ◌<◌, ◌||◌, false, some, [], ◌∷◌, ◌++◌, Bytes, length, take, ltb, ◌==◌, ◌≡◌,
  refl, ap, ◌∙◌, arith,
}
use raidan_sdk.Prelude.Result.{ok}
use raidan_sdk.Reqresp.Framing.{
  StreamError, Snappy, max_payload_size, max_compressed_len, limited_end, raw_ssz_snappy,
}
use raidan_sdk.Reqresp.Framing.Varint.{max_compressed_len_exact}
use raidan_sdk.Reqresp.Framing.Limits.{SnappyLaws}
use raidan_sdk.Reqresp.Framing.RoundTrip.{read_prefix, take-compress}
use raidan_sdk.Reqresp.Framing.Body.{on_body_length, read_ssz_snappy}

module _ (snappy : Snappy) (laws : SnappyLaws snappy) where
  accept_body :
      (ends : StreamError) (b : Bytes) (max : ℕ) (p rest : Bytes)
      → max ≤ max_payload_size
      → length p ≤ max
      → on_body_length snappy ends b max (ok (length p), snappy.compress p ++ rest) ≡ ok p
  accept_body ends b max [] rest h fits =
      let ok_length : ltb max 0 ≡ false = ground arith in rw ok_length
  accept_body ends b max (x ∷ p) rest h fits =
      let n : ℕ = length (x ∷ p) in
      let limit : ℕ = 32 + n + n / 6 in
      let ok_length : ltb max n ≡ false = ground arith in
      let nonzero : (n == 0) ≡ false = ground arith in
      let limit_is : max_compressed_len n ≡ some limit =
        max_compressed_len_exact n (omega arith) ∙ ground arith in
      let view = take-compress snappy laws limit (x ∷ p) rest refl in
      let more : Bytes = take (limit - length (snappy.compress (x ∷ p))) rest in
      rw (
        ok_length,
        nonzero,
        limit_is,
        view,
        laws.read-compress (x ∷ p) more (limited_end limit (snappy.compress (x ∷ p) ++ rest) ends)
            (omega arith),
      )

  -- `ReadSSZSnappy` gives back the payload that `WriteSSZSnappy` wrote, whatever follows it, for a limit
  -- from 1 up to the hard ceiling that the payload keeps, over a codec that keeps its contract.
  pub read_ssz_snappy-raw_ssz_snappy :
      (ends : StreamError) (max : ℕ) (p rest : Bytes)
      → 0 < max
      → max ≤ max_payload_size
      → length p ≤ max
      → read_ssz_snappy snappy ends max (raw_ssz_snappy snappy p ++ rest) ≡ ok p
  unfolding read_ssz_snappy
  read_ssz_snappy-raw_ssz_snappy ends max p rest pos h fits =
      let allowed : (max == 0 || ltb max_payload_size max) ≡ false = ground arith in
      rw allowed (
        ap (on_body_length snappy ends (raw_ssz_snappy snappy p ++ rest) max)
          (read_prefix snappy laws ends p rest (omega arith))
        ∙ accept_body ends (raw_ssz_snappy snappy p ++ rest) max p rest h fits)
