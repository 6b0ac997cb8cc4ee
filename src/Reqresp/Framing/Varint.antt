-- ===== src/Reqresp/Framing/Varint.antt =====
-- The varint reader against Go's own, and the bound on compressed lengths.
use raidan_sdk.Prelude.{
  ℕ, zero, suc, ◌+◌, ◌-◌, ◌/◌, ◌^◌, ◌<◌, bit_and, bit_or, none, some, [], ◌∷◌, ◌++◌, Bytes, length,
  drop, drop-append, ltb, Bool-cases, if◌then◌else◌, ◌≡◌, ◌↔◌, ◌∙◌, inl, inr, refl, sym, ap, arith,
}
use raidan_sdk.Prelude.Result.{ok}
use raidan_sdk.Uvarint.{value, scan, uvarint, append_uvarint, shl64}
use raidan_sdk.Uvarint.RoundTrip.{scan_count, uvarint-append_uvarint}
use raidan_sdk.Reqresp.Framing.{
  StreamError, varint_rounds, read_consensus_uvarint, max_compressed_len,
}

drop_from : (n i c : ℕ) (b : Bytes) → i < n → drop (n - i) (c ∷ b) ≡ drop (n - (i + 1)) b
drop_from n i c b h = let e : n - i ≡ suc (n - (i + 1)) = omega arith in rw e

varint_rounds_of_scan :
    (k i x s : ℕ) (ends : StreamError) (b : Bytes) (v n : ℕ)
    → k + i ≡ 10
    → scan b i x s ≡ value v n
    → varint_rounds k i x s ends b ≡ (ok v, drop (n - i) b)
unfolding scan varint_rounds
varint_rounds_of_scan zero i x s ends [] v n e h = ground arith
varint_rounds_of_scan zero i x s ends (c ∷ b) v n e h = ground arith
varint_rounds_of_scan (suc k) i x s ends [] v n e h = ground arith
varint_rounds_of_scan (suc k) i x s ends (c ∷ b) v n e h =
    let y : ℕ = bit_or x (shl64 (bit_and c 0x7f) s) in
    ground (
      arith,
      drop_from n i c b,
      scan_count (c ∷ b) i x s v n,
      varint_rounds_of_scan k (i + 1) y (s + 7) ends b v n,
    )

scan_of_varint_rounds :
    (k i x s : ℕ) (ends : StreamError) (b rest : Bytes) (v : ℕ)
    → k + i ≡ 10
    → varint_rounds k i x s ends b ≡ (ok v, rest)
    → (n : ℕ) × (scan b i x s ≡ value v n) × (drop (n - i) b ≡ rest)
unfolding scan varint_rounds
scan_of_varint_rounds zero i x s ends b rest v e h = cc
scan_of_varint_rounds (suc k) i x s ends [] rest v e h = cc
scan_of_varint_rounds (suc k) i x s ends (c ∷ b) rest v e h = elim (Bool-cases (ltb c 0x80)) [
  | inl last ↦ (i + 1, ground arith, drop_from (i + 1) i c b (omega arith) ∙ ground arith)
  | inr inner ↦
      let y : ℕ = bit_or x (shl64 (bit_and c 0x7f) s) in
      let later : varint_rounds k (i + 1) y (s + 7) ends b ≡ (ok v, rest) = ground arith in
      let (n, found, left) =
        scan_of_varint_rounds k (i + 1) y (s + 7) ends b rest v (omega arith) later in
      (
        n,
        ground arith,
        drop_from n i c b (omega (arith, scan_count b (i + 1) y (s + 7) v n found)) ∙ left,
      )
]

drop-sub-zero : (n : ℕ) (b : Bytes) → drop (n - 0) b ≡ drop n b
drop-sub-zero n b = let e : n - 0 ≡ n = omega arith in rw e

-- The SDK's varint reader accepts a stream exactly where Go's `Uvarint` accepts the bytes, with the
-- same value, and leaves what Go's count leaves, whatever ends the stream.
pub read_consensus_uvarint-uvarint :
    (ends : StreamError) (b rest : Bytes) (v : ℕ)
    → (read_consensus_uvarint ends b ≡ (ok v, rest))
      ↔ ((n : ℕ) × (uvarint b ≡ value v n) × (drop n b ≡ rest))
unfolding read_consensus_uvarint uvarint
read_consensus_uvarint-uvarint ends b rest v = (
  λ h.
      let (n, found, left) = scan_of_varint_rounds 10 0 0 0 ends b rest v refl h in
      (n, found, sym (drop-sub-zero n b) ∙ left),
  λ (n, found, left).
      varint_rounds_of_scan 10 0 0 0 ends b v n refl found
      ∙ ap (λ (t : Bytes). (ok v, t)) (drop-sub-zero n b ∙ left),
)

-- A length prefix that `PutUvarint` wrote for a uint64 is read back, and what follows it is left.
pub read_consensus_uvarint-append_uvarint :
    (ends : StreamError) (x : ℕ) (rest : Bytes)
    → x < 2 ^ 64
    → read_consensus_uvarint ends (append_uvarint [] x ++ rest) ≡ (ok x, rest)
read_consensus_uvarint-append_uvarint ends x rest h =
    (read_consensus_uvarint-uvarint ends (append_uvarint [] x ++ rest) rest x).1 (
      length (append_uvarint [] x),
      uvarint-append_uvarint x rest h,
      drop-append (append_uvarint [] x) rest,
    )

-- For a uint64 the limit is 32 + n + n / 6 where that fits an int64, and there is none where it does
-- not: no step of the computation wraps.
pub max_compressed_len_exact :
    (n : ℕ)
    → n < 2 ^ 64
    → max_compressed_len n ≡ (if ltb (32 + n + n / 6) (2 ^ 63) then some (32 + n + n / 6) else none)
unfolding max_compressed_len
max_compressed_len_exact n h = ground arith
