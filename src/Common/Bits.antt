-- ===== src/Common/Bits.antt =====
-- Bit operations at variables: masks of ones, and `|` of fields that do not overlap.
use Prim.Native.Nat.{
  ℕ, zero, suc, ◌+◌, ◌*◌, ◌/◌, ◌%◌, ◌^◌, ◌≤◌, ◌<◌, min, max, bit_and, bit_or, digits,
  bit_and-bitwise, bit_or-bitwise,
}
use mathlib.Core.Path.{◌≡◌, refl, sym, ap, ◌∙◌}
use native.Mathlib.Omega.{arith}

-- The digit recursion that a bit operation stands for, with any first argument as fuel that is no
-- smaller than the number that it takes apart.
module _ (base : ℕ → ℕ) (digit : ℕ → ℕ → ℕ) where
  at_zero : (fuel b : ℕ) → digits base digit fuel 0 b ≡ base b
  at_zero zero b = refl
  at_zero (suc fuel) b = refl

  any_fuel : (k l a b : ℕ) → a ≤ k → a ≤ l → digits base digit k a b ≡ digits base digit l a b
  any_fuel k l zero b _ _ = at_zero k b ∙ sym (at_zero l b)
  any_fuel zero l (suc a) b h _ = absurd (omega arith)
  any_fuel (suc k) zero (suc a) b _ h = absurd (omega arith)
  any_fuel (suc k) (suc l) (suc a) b h h' =
      ap (λ (t : ℕ). t * 2 + digit (suc a % 2) (b % 2))
        (any_fuel k l (suc a / 2) (b / 2) (omega arith) (omega arith))

  -- The lowest digit and the others.
  lowest :
      (a b : ℕ)
      → digits base digit (suc a) (suc a) b
        ≡ digits base digit (suc a / 2) (suc a / 2) (b / 2) * 2 + digit (suc a % 2) (b % 2)
  lowest a b =
      ap (λ (t : ℕ). t * 2 + digit (suc a % 2) (b % 2))
        (any_fuel a (suc a / 2) (suc a / 2) (b / 2) (omega arith) (omega arith))

none-and : (b : ℕ) → bit_and 0 b ≡ 0
none-and = bit_and-bitwise 0

none-or : (b : ℕ) → bit_or 0 b ≡ b
none-or = bit_or-bitwise 0

bit_and_step : (a b : ℕ) → bit_and a b ≡ bit_and (a / 2) (b / 2) * 2 + min (a % 2) (b % 2)
bit_and_step zero b = rw (none-and, none-and) (omega arith)
bit_and_step (suc a) b =
    bit_and-bitwise (suc a) b
    ∙ lowest (λ _. 0) min a b
    ∙ ap (λ (t : ℕ). t * 2 + min (suc a % 2) (b % 2)) (sym (bit_and-bitwise (suc a / 2) (b / 2)))

bit_or_step : (a b : ℕ) → bit_or a b ≡ bit_or (a / 2) (b / 2) * 2 + max (a % 2) (b % 2)
bit_or_step zero b = rw (none-or, none-or) (omega arith)
bit_or_step (suc a) b =
    bit_or-bitwise (suc a) b
    ∙ lowest (λ t. t) max a b
    ∙ ap (λ (t : ℕ). t * 2 + max (suc a % 2) (b % 2)) (sym (bit_or-bitwise (suc a / 2) (b / 2)))

-- The empty mask, for numbers below a bound.
and_none : (bound a : ℕ) → a ≤ bound → bit_and a 0 ≡ 0
and_none bound zero _ = none-and 0
and_none zero (suc a) h = absurd (omega arith)
and_none (suc bound) (suc a) h =
    omega (arith, bit_and_step (suc a) 0, and_none bound (suc a / 2) (omega arith))

-- A mask one bit longer.
mask_step : (a m : ℕ) → bit_and a (2 * m + 1) ≡ bit_and (a / 2) m * 2 + a % 2
mask_step a m = omega (arith, bit_and_step a (2 * m + 1), half)
  where
    half : bit_and (a / 2) ((2 * m + 1) / 2) ≡ bit_and (a / 2) m
    half = λ i. bit_and (a / 2) ((let e : (2 * m + 1) / 2 ≡ m = omega arith in e) i)

pub bit_and-1 : (a : ℕ) → bit_and a 1 ≡ a % 2
bit_and-1 a = omega (arith, mask_step a 0, and_none (a / 2) (a / 2) (omega arith))

bit_and-7 : (a : ℕ) → bit_and a 7 ≡ a % 8
bit_and-7 a = omega (arith, mask_step a 3, mask_step (a / 2) 1, bit_and-1 (a / 2 / 2))

pub bit_and-31 : (a : ℕ) → bit_and a 0x1f ≡ a % 32
bit_and-31 a = omega (arith, mask_step a 15, mask_step (a / 2) 7, bit_and-7 (a / 2 / 2))

pub bit_and-63 : (a : ℕ) → bit_and a 0x3f ≡ a % 64
bit_and-63 a = omega (arith, mask_step a 31, bit_and-31 (a / 2))

pub bit_and-127 : (a : ℕ) → bit_and a 0x7f ≡ a % 128
bit_and-127 a = omega (arith, mask_step a 63, bit_and-63 (a / 2))

pow_suc : (s : ℕ) → 2 ^ suc s ≡ 2 * 2 ^ s
pow_suc s = omega arith

-- `a | b << s`, where `a` has at most `s` bits, is a sum.
pub bit_or_above : (s a b : ℕ) → a < 2 ^ s → bit_or a (b * 2 ^ s) ≡ a + b * 2 ^ s
bit_or_above zero zero b h = omega (arith, none-or (b * 2 ^ 0))
bit_or_above zero (suc a) b h = absurd (omega arith)
bit_or_above (suc s) a b h =
    let e : b * 2 ^ suc s ≡ 2 * (b * 2 ^ s) = omega (arith, ap (λ (t : ℕ). b * t) (pow_suc s)) in
    let half : b * 2 ^ suc s / 2 ≡ b * 2 ^ s = omega arith in
    omega (
      arith,
      bit_or_step a (b * 2 ^ suc s),
      ap (λ (t : ℕ). bit_or (a / 2) t) half,
      bit_or_above s (a / 2) b (omega (arith, pow_suc s)),
    )

-- A single bit one place further left.
top_step : (a m : ℕ) → bit_or a (2 * m) ≡ bit_or (a / 2) m * 2 + a % 2
top_step a m = omega (arith, bit_or_step a (2 * m), half)
  where
    half : bit_or (a / 2) (2 * m / 2) ≡ bit_or (a / 2) m
    half = λ i. bit_or (a / 2) ((let e : 2 * m / 2 ≡ m = omega arith in e) i)

bit_or_one : (a : ℕ) → a < 2 → bit_or a 1 ≡ 1
bit_or_one zero h = none-or 1
bit_or_one (suc zero) h = refl
bit_or_one (suc (suc a)) h = absurd (omega arith)

bit_or_8 : (a : ℕ) → a < 16 → bit_or a 8 ≡ a % 8 + 8
bit_or_8 a h = omega (
  arith,
  top_step a 4,
  top_step (a / 2) 2,
  top_step (a / 2 / 2) 1,
  bit_or_one (a / 2 / 2 / 2) (omega arith),
)

-- `byte(x) | 0x80`.
pub bit_or_128 : (a : ℕ) → a < 256 → bit_or a 0x80 ≡ a % 128 + 128
bit_or_128 a h = omega (
  arith,
  top_step a 64,
  top_step (a / 2) 32,
  top_step (a / 2 / 2) 16,
  top_step (a / 2 / 2 / 2) 8,
  bit_or_8 (a / 2 / 2 / 2 / 2) (omega arith),
)

bit_or-zero_fuel : (n a : ℕ) → a ≤ n → bit_or a 0 ≡ a
bit_or-zero_fuel n zero h = refl
bit_or-zero_fuel zero (suc a) h = absurd (omega arith)
bit_or-zero_fuel (suc n) (suc a) h =
    omega (arith, bit_or_step (suc a) 0, bit_or-zero_fuel n (suc a / 2) (omega arith))

-- `b << s | a`, where `a` has at most `s` bits.
pub bit_or_below : (s b a : ℕ) → a < 2 ^ s → bit_or (b * 2 ^ s) a ≡ b * 2 ^ s + a
bit_or_below zero b zero h = omega (arith, bit_or-zero_fuel (b * 2 ^ 0) (b * 2 ^ 0) (omega arith))
bit_or_below zero b (suc a) h = absurd (omega arith)
bit_or_below (suc s) b a h =
    let e : b * 2 ^ suc s ≡ 2 * (b * 2 ^ s) = omega (arith, ap (λ (t : ℕ). b * t) (pow_suc s)) in
    let half : b * 2 ^ suc s / 2 ≡ b * 2 ^ s = omega arith in
    omega (
      arith,
      bit_or_step (b * 2 ^ suc s) a,
      ap (λ (t : ℕ). bit_or t (a / 2)) half,
      bit_or_below s b (a / 2) (omega (arith, pow_suc s)),
    )

bit_and-le_fuel : (n a b : ℕ) → a ≤ n → bit_and a b ≤ b
bit_and-le_fuel n zero b h = omega (arith, none-and b)
bit_and-le_fuel zero (suc a) b h = absurd (omega arith)
bit_and-le_fuel (suc n) (suc a) b h =
    let digit : min (suc a % 2) (b % 2) ≤ b % 2 = omega arith in
    omega
      (arith, bit_and_step (suc a) b, bit_and-le_fuel n (suc a / 2) (b / 2) (omega arith), digit)

-- A mask bounds the result.
pub bit_and-le : (a b : ℕ) → bit_and a b ≤ b
bit_and-le a b = bit_and-le_fuel a a b (omega arith)
