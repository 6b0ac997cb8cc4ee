-- ===== src/Prelude/Text.antt =====
-- Go's `strings` and `strconv` on ASCII texts.
use Prim.Native.Nat.{ℕ, ◌+◌, ◌-◌, ◌*◌, ◌^◌, ◌<◌}
use mathlib.Core.Bool.{Bool, ◌&&◌, ◌||◌}
use mathlib.Core.Option.{Option, none, some}
use mathlib.Core.List.{[], ◌∷◌}
use mathlib.Core.Path.{◌≡◌}
use native.Mathlib.Omega.{arith}
use raidan_sdk.Prelude.Tests.{◌==◌, ltb, leb, if◌then◌else◌}
use raidan_sdk.Prelude.Lists.{Bytes, length, drop, has_prefix}

unfoldable pub is_space : ℕ → Bool
is_space c = c == 32 || (leb 9 c && leb c 13)

-- `TrimSpace`.
unfoldable pub trim_left : Bytes → Bytes
trim_left [] = []
trim_left (c ∷ s) = if is_space c then trim_left s else c ∷ s

abbrev before_spaces : ℕ → Bytes → Bytes
before_spaces c [] = if is_space c then [] else c ∷ []
before_spaces c (d ∷ s) = c ∷ d ∷ s

unfoldable pub trim_right : Bytes → Bytes
trim_right [] = []
trim_right (c ∷ s) = before_spaces c (trim_right s)

abbrev pub trim_space : Bytes → Bytes
trim_space s = trim_right (trim_left s)

-- `TrimPrefix`.
unfoldable pub trim_prefix : Bytes → Bytes → Bytes
trim_prefix s prefix = if has_prefix s prefix then drop (length prefix) s else s

-- `ParseUint` in base 10 for 64 bits, `none` for its error.
abbrev digit_behind : Option ℕ → ℕ → Option ℕ
digit_behind none c = none
digit_behind (some n) c =
    if leb 48 c && leb c 57 && ltb (n * 10 + (c - 48)) (2 ^ 64)
    then some (n * 10 + (c - 48))
    else none

unfoldable pub parse_digits : Option ℕ → Bytes → Option ℕ
parse_digits n [] = n
parse_digits n (c ∷ s) = parse_digits (digit_behind n c) s

abbrev pub parse_uint : Bytes → Option ℕ
parse_uint [] = none
parse_uint (c ∷ s) = parse_digits (some 0) (c ∷ s)

digit_behind_bound : (o : Option ℕ) (c m : ℕ) → digit_behind o c ≡ some m → m < 2 ^ 64
digit_behind_bound none c m h = absurd (ground arith)
digit_behind_bound (some n) c m h = ground arith

parse_digits_bound :
    (s : Bytes) (o : Option ℕ) (n : ℕ)
    → ((m : ℕ) → o ≡ some m → m < 2 ^ 64)
    → parse_digits o s ≡ some n
    → n < 2 ^ 64
unfolding parse_digits
parse_digits_bound [] o n h e = h n e
parse_digits_bound (c ∷ s) o n h e =
    parse_digits_bound s (digit_behind o c) n (digit_behind_bound o c) e

pub parse_uint_bound : (s : Bytes) (n : ℕ) → parse_uint s ≡ some n → n < 2 ^ 64
parse_uint_bound [] n h = absurd (ground arith)
parse_uint_bound (c ∷ s) n h = parse_digits_bound (c ∷ s) (some 0) n (λ m k. ground arith) h
