-- ===== src/Prelude/Bits.antt =====
-- `|` of disjoint fields and the masks of one byte, as arithmetic.
use Prim.Native.Nat.{
  ℕ, zero, suc, ◌+◌, ◌*◌, ◌/◌, ◌%◌, ◌^◌, ◌≤◌, ◌<◌, min, max, bit_and, bit_or, digits,
  bit_or-bitwise, bit_and-bitwise,
}
use mathlib.Core.Path.{◌≡◌, refl, ap}
use mathlib.Core.Bool.{Bool, true, ◌&&◌}
use mathlib.Core.WellFounded
use native.Mathlib.Nat.{pow-suc}
use native.Mathlib.Omega.{arith}
use raidan_sdk.Prelude.Tests.{◌==◌}
use raidan_sdk.Prelude.Order.{lt_wf}

-- The digits that an operation combines: the rounds to go do not matter once they cover the first
-- number.
digits-count :
    (f : ℕ → ℕ) (op : ℕ → ℕ → ℕ) (n m a b : ℕ)
    → a ≤ n
    → a ≤ m
    → digits f op n a b ≡ digits f op m a b
digits-count f op zero zero a b p q = refl
digits-count f op zero (suc m) zero b p q = refl
digits-count f op (suc n) zero zero b p q = refl
digits-count f op (suc n) (suc m) zero b p q = refl
digits-count f op zero (suc m) (suc a) b p q = absurd (omega arith)
digits-count f op (suc n) zero (suc a) b p q = absurd (omega arith)
digits-count f op (suc n) (suc m) (suc a) b p q =
    let halves : suc a / 2 ≤ m = omega arith in
    let rest = digits-count f op n m (suc a / 2) (b / 2) (omega arith) halves in omega (arith, rest)

-- One digit off both numbers.
digits_halve :
    (f : ℕ → ℕ) (op : ℕ → ℕ → ℕ) (a b : ℕ)
    → digits f op (suc a) (suc a) b
      ≡ digits f op (suc a / 2) (suc a / 2) (b / 2) * 2 + op (suc a % 2) (b % 2)
digits_halve f op a b =
    let fewer = digits-count f op a (suc a / 2) (suc a / 2) (b / 2) (omega arith) (omega arith) in
    omega (arith, fewer)

zero-bit_or : (b : ℕ) → bit_or 0 b ≡ b
zero-bit_or b = bit_or-bitwise 0 b

bit_or_step : (a b : ℕ) → bit_or a b ≡ bit_or (a / 2) (b / 2) * 2 + max (a % 2) (b % 2)
bit_or_step zero b = omega (arith, zero-bit_or b, zero-bit_or (b / 2))
bit_or_step (suc a) b =
    let whole = bit_or-bitwise (suc a) b in
    let half = bit_or-bitwise (suc a / 2) (b / 2) in
    omega (arith, whole, half, digits_halve (λ x. x) max a b)

bit_or-zero : (a : ℕ) → bit_or a 0 ≡ a
bit_or-zero a = WellFounded.induction lt_wf {C = λ k. bit_or k 0 ≡ k} a halve
  where
    halve : (n : ℕ) → ((m : ℕ) → m < n → bit_or m 0 ≡ m) → bit_or n 0 ≡ n
    halve zero ih = refl
    halve (suc n) ih = omega (arith, bit_or_step (suc n) 0, ih (suc n / 2) (omega arith))

-- `x | q << s` is a sum where `x` fits below bit `s`.
pub bit_or_above : (s x q : ℕ) → x < 2 ^ s → bit_or x (q * 2 ^ s) ≡ x + q * 2 ^ s
bit_or_above zero x q h = ground (arith, zero-bit_or q)
bit_or_above (suc s) x q h = ground (
  arith,
  bit_or_step x (q * 2 ^ suc s),
  ap (λ (t : ℕ). q * t) (pow-suc 2 s),
  pow-suc 2 s,
  bit_or_above s (x / 2) q (omega arith),
)

-- `q << s | r` is a sum where `r` fits below bit `s`.
pub bit_or_below : (s q r : ℕ) → r < 2 ^ s → bit_or (q * 2 ^ s) r ≡ q * 2 ^ s + r
bit_or_below zero q r h = ground (arith, bit_or-zero q)
bit_or_below (suc s) q r h = ground (
  arith,
  bit_or_step (q * 2 ^ suc s) r,
  ap (λ (t : ℕ). q * t) (pow-suc 2 s),
  pow-suc 2 s,
  bit_or_below s q (r / 2) (omega arith),
)

bit_and_of_zero : (x : ℕ) → bit_and 0 x ≡ 0
bit_and_of_zero x = bit_and-bitwise 0 x

bit_and_step : (x y : ℕ) → bit_and x y ≡ min (x % 2) (y % 2) + 2 * bit_and (x / 2) (y / 2)
bit_and_step zero y =
    let none_here = bit_and_of_zero y in
    let none_there = bit_and_of_zero (y / 2) in omega (arith, none_here, none_there)
bit_and_step (suc x) y =
    let whole = bit_and-bitwise (suc x) y in
    let half = bit_and-bitwise (suc x / 2) (y / 2) in
    omega (arith, whole, half, digits_halve (λ b. zero) min x y)

bit_and-zero : (a : ℕ) → bit_and a 0 ≡ 0
bit_and-zero a = WellFounded.induction lt_wf {C = λ k. bit_and k 0 ≡ 0} a halve
  where
    halve : (n : ℕ) → ((m : ℕ) → m < n → bit_and m 0 ≡ 0) → bit_and n 0 ≡ 0
    halve zero ih = refl
    halve (suc n) ih = omega (arith, bit_and_step (suc n) 0, ih (suc n / 2) (omega arith))

-- `a & 7` keeps the three low bits.
pub mask_low3 : (a : ℕ) → bit_and a 7 ≡ a % 8
mask_low3 a = omega (
  arith,
  bit_and_step a 7,
  bit_and_step (a / 2) 3,
  bit_and_step (a / 2 / 2) 1,
  bit_and-zero (a / 2 / 2 / 2),
)

-- Facts about one byte are tables, checked by evaluation.
agrees : (ℕ → ℕ) → (ℕ → ℕ) → ℕ → Bool
agrees f g zero = true
agrees f g (suc n) = (f n == g n) && agrees f g n

agrees_sound : (f g : ℕ → ℕ) (n x : ℕ) → agrees f g n ≡ true → x < n → f x ≡ g x
unfolding agrees
agrees_sound f g zero x e h = absurd (omega arith)
agrees_sound f g (suc n) x e h = ground (arith, agrees_sound f g n x)

pub mask_low7 : (b : ℕ) → b < 256 → bit_and b 0x7f ≡ b % 128
unfolding agrees
mask_low7 b h = agrees_sound (λ b. bit_and b 0x7f) (λ b. b % 128) 256 b refl h

pub set_bit7 : (b : ℕ) → b < 256 → bit_or b 0x80 ≡ b % 128 + 128
unfolding agrees
set_bit7 b h = agrees_sound (λ b. bit_or b 0x80) (λ b. b % 128 + 128) 256 b refl h
