-- ===== src/Uvarint/RoundTrip.antt =====
-- `uvarint` reads back what `append_uvarint` wrote, and takes exactly those bytes.
use raidan_sdk.Prelude.{
  ℕ, zero, suc, ◌+◌, ◌*◌, ◌/◌, ◌%◌, ◌^◌, ◌≤◌, ◌<◌, Bytes, [], ◌∷◌, ◌++◌, bit_or, bit_and, length,
  ◌≡◌, ap, arith,
}
use raidan_sdk.Prelude.Bits.{bit_or_above, mask_low7, set_bit7}
use raidan_sdk.Uvarint.{value, overflow, groups, append_uvarint, scan, uvarint, shl64}
use native.Mathlib.Nat.{div-add-mod}
use native.Mathlib.Numerals.{towards_suc}

pub length-groups : (k x : ℕ) → (1 ≤ length (groups k x)) × (length (groups k x) ≤ k + 1)
unfolding groups
length-groups zero x = omega arith
length-groups (suc k) x = ground (arith, length-groups k (x / 128))

-- Seven more bits are a factor of 128.
seven_wider : (s : ℕ) → 128 * 2 ^ s ≡ 2 ^ (s + 7)
seven_wider s = simp towards_suc (omega arith)

-- The lowest group of a number and the groups above it, at any shift.
regroup : (s w : ℕ) → w / 128 * 2 ^ (s + 7) + w % 128 * 2 ^ s ≡ w * 2 ^ s
regroup s w =
    let low = ap (λ (n : ℕ). n * 2 ^ s) (div-add-mod w 128) in
    let high = ap (λ (n : ℕ). w / 128 * n) (seven_wider s) in omega (arith, low, high)

-- The group `g` above the bits of `x` adds up, where the sum is a uint64.
place_group :
    (x g s : ℕ) → x < 2 ^ s → x + g * 2 ^ s < 2 ^ 64 → bit_or x (shl64 g s) ≡ x + g * 2 ^ s
place_group x g s h fits =
    let whole : shl64 g s ≡ g * 2 ^ s = omega arith in rw whole (bit_or_above s x g h)

-- One round on a last byte, and on a byte with the top bit set over the group `g`.
scan_last :
    (g i x s : ℕ) (rest : Bytes)
    → g < 128
    → i < 10
    → (i ≡ 9 → g ≤ 1)
    → scan (g ∷ rest) i x s ≡ value (bit_or x (shl64 g s)) (i + 1)
unfolding scan
scan_last g i x s rest hg hi top = ground arith

scan_inner :
    (g i x s : ℕ) (rest : Bytes)
    → g < 128
    → i < 10
    → scan ((g + 128) ∷ rest) i x s ≡ scan rest (i + 1) (bit_or x (shl64 g s)) (s + 7)
unfolding scan
scan_inner g i x s rest hg hi = ground (arith, mask_low7 (g + 128))

low_bound : (x w s : ℕ) → x < 2 ^ s → x + w % 128 * 2 ^ s < 2 ^ (s + 7)
low_bound x w s h = rw (← seven_wider s) (grind (arith, low_step (w % 128) (omega arith)))
  where
    low_step : (g : ℕ) → g < 128 → g * 2 ^ s + 2 ^ s ≤ 128 * 2 ^ s
    low_step g hg = grind arith

-- `i` bytes are read and `k + 1` more may follow, 10 in all.
scan-groups :
    (k w i x s : ℕ) (rest : Bytes)
    → i + k ≡ 9
    → s ≡ 7 * i
    → x < 2 ^ s
    → x + w * 2 ^ s < 2 ^ 64
    → scan (groups k w ++ rest) i x s ≡ value (x + w * 2 ^ s) (i + length (groups k w))
unfolding groups
scan-groups zero w i x s rest hi hs hx fits =
    ground (arith, last_group w s, place_group x w s hx fits, scan_last w i x s rest)
  where
    last_group : (w s : ℕ) → s ≡ 63 → w * 2 ^ s < 2 ^ 64 → w ≤ 1
    last_group w s e h = let h' : w * 2 ^ 63 < 2 ^ 64 = rw e at h in omega arith
scan-groups (suc k) w i x s rest hi hs hx fits = ground (
  arith,
  place_group x w s hx fits,
  scan_last w i x s rest,
  set_bit7 (w % 256),
  regroup s w,
  place_group x (w % 128) s hx,
  low_bound x w s hx,
  scan_inner (w % 128) i x s (groups k (w / 128) ++ rest),
  scan-groups k (w / 128) (i + 1) (x + w % 128 * 2 ^ s) (s + 7) rest,
)

-- A uint64 that `append_uvarint` wrote is read back, whatever follows it, and the count of bytes is
-- the length of what was written.
pub uvarint-append_uvarint :
    (x : ℕ) (rest : Bytes)
    → x < 2 ^ 64
    → uvarint (append_uvarint [] x ++ rest) ≡ value x (length (append_uvarint [] x))
unfolding uvarint append_uvarint
uvarint-append_uvarint x rest h = ground (arith, scan-groups 9 x 0 0 0 rest)

-- What `scan` found does not depend on the bytes behind it.
pub scan-append :
    (b more : Bytes) (i x s v n : ℕ) → scan b i x s ≡ value v n → scan (b ++ more) i x s ≡ value v n
unfolding scan
scan-append [] more i x s v n h = ground arith
scan-append (c ∷ b) more i x s v n h =
    ground (arith, scan-append b more (i + 1) (bit_or x (shl64 (bit_and c 0x7f) s)) (s + 7) v n)

pub scan-append_overflow :
    (b more : Bytes) (i x s : ℕ) → scan b i x s ≡ overflow → scan (b ++ more) i x s ≡ overflow
unfolding scan
scan-append_overflow [] more i x s h = ground arith
scan-append_overflow (c ∷ b) more i x s h =
    ground
      (arith, scan-append_overflow b more (i + 1) (bit_or x (shl64 (bit_and c 0x7f) s)) (s + 7))

-- The count is at least 1 and within the buffer.
pub scan_count :
    (b : Bytes) (i x s v n : ℕ) → scan b i x s ≡ value v n → (i < n) × (n ≤ i + length b)
unfolding scan
scan_count [] i x s v n h = ground arith
scan_count (c ∷ b) i x s v n h =
    ground (arith, scan_count b (i + 1) (bit_or x (shl64 (bit_and c 0x7f) s)) (s + 7) v n)
