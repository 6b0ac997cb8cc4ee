-- ===== src/Prelude/LittleEndian.antt =====
-- Numbers in a fixed count of bytes, the lowest first.
use Prim.Native.Nat.{ℕ, zero, suc, ◌+◌, ◌*◌, ◌/◌, ◌%◌, ◌^◌, ◌<◌}
use mathlib.Core.List.{[], ◌∷◌, ◌++◌}
use mathlib.Core.Path.{◌≡◌, refl, ap}
use native.Mathlib.Nat.{pow-suc}
use native.Mathlib.Omega.{arith}
use raidan_sdk.Prelude.Lists.{Bytes, length, take, drop, take-append_eq, drop-append_eq}

-- `binary.LittleEndian`: the low bytes of a number, the lowest first.
unfoldable pub little_endian : ℕ → ℕ → Bytes
little_endian zero n = []
little_endian (suc w) n = n % 256 ∷ little_endian w (n / 256)

-- The number of bytes with the lowest first.
abbrev pub little_endian_value : Bytes → ℕ
little_endian_value [] = 0
little_endian_value (b ∷ bs) = b + 256 * little_endian_value bs

pub little_endian_value-little_endian :
    (w n : ℕ) → n < 256 ^ w → little_endian_value (little_endian w n) ≡ n
unfolding little_endian
little_endian_value-little_endian zero n h = omega arith
little_endian_value-little_endian (suc w) n h = omega (
  arith,
  pow-suc 256 w,
  little_endian_value-little_endian w (n / 256) (omega (arith, pow-suc 256 w)),
)

pub length-little_endian : (w n : ℕ) → length (little_endian w n) ≡ w
unfolding little_endian
length-little_endian zero n = refl
length-little_endian (suc w) n = ap suc (length-little_endian w (n / 256))

-- One field, read back in front of the rest.
pub split_fields :
    (n : ℕ) (field rest : Bytes)
    → length field ≡ n
    → (take n (field ++ rest) ≡ field) × (drop n (field ++ rest) ≡ rest)
split_fields n field rest h = (take-append_eq n field rest h, drop-append_eq n field rest h)
