-- ===== src/Prelude/Bits.antt =====
-- Facts about the bitwise `|` at variables, from its digit recursion, for the flags that the kernel
-- ors into page-table entries.
use Prim.Native.Nat.{
  ℕ, zero, suc, ◌+◌, ◌*◌, ◌/◌, ◌%◌, ◌≤◌, ◌<◌, max, bit_or, digits, bit_or-bitwise,
}
use mathlib.Core.Path.{◌≡◌, refl, ap, ◌∙◌}
use native.Mathlib.Omega.{arith}

-- The recursion that `|` stands for, with the number of digits that it may read.
abbrev or_digits : ℕ → ℕ → ℕ → ℕ
or_digits n a b = digits (λ b. b) max n a b

or_digits_fuel : (n m a b : ℕ) → a ≤ n → a ≤ m → or_digits n a b ≡ or_digits m a b
or_digits_fuel zero zero a b p q = refl
or_digits_fuel zero (suc m) zero b p q = refl
or_digits_fuel zero (suc m) (suc a) b p q = absurd (omega arith)
or_digits_fuel (suc n) zero zero b p q = refl
or_digits_fuel (suc n) zero (suc a) b p q = absurd (omega arith)
or_digits_fuel (suc n) (suc m) zero b p q = refl
or_digits_fuel (suc n) (suc m) (suc a) b p q =
    omega (arith, or_digits_fuel n m (suc a / 2) (b / 2) (omega arith) (omega arith))

pub zero-bit_or : (b : ℕ) → bit_or 0 b ≡ b
zero-bit_or b = bit_or-bitwise 0 b

pub bit_or_step : (a b : ℕ) → bit_or a b ≡ bit_or (a / 2) (b / 2) * 2 + max (a % 2) (b % 2)
bit_or_step zero b = omega (arith, zero-bit_or b, zero-bit_or (b / 2))
bit_or_step (suc a) b = omega (
  arith,
  bit_or-bitwise (suc a) b,
  bit_or-bitwise (suc a / 2) (b / 2),
  or_digits_fuel a (suc a / 2) (suc a / 2) (b / 2) (omega arith) (omega arith),
)

bit_or-zero_fuel : (n a : ℕ) → a ≤ n → bit_or a 0 ≡ a
bit_or-zero_fuel n zero h = refl
bit_or-zero_fuel zero (suc a) h = absurd (omega arith)
bit_or-zero_fuel (suc n) (suc a) h =
    omega (arith, bit_or_step (suc a) 0, bit_or-zero_fuel n (suc a / 2) (omega arith))

pub bit_or-zero : (a : ℕ) → bit_or a 0 ≡ a
bit_or-zero a = bit_or-zero_fuel a a (omega arith)

pub bit_or-half : (a b : ℕ) → bit_or a b / 2 ≡ bit_or (a / 2) (b / 2)
bit_or-half a b = omega (arith, bit_or_step a b)

-- The lowest bit, which marks a page-table entry as present.
pub bit_or_odd : (a b : ℕ) → b % 2 ≡ 1 → bit_or a b % 2 ≡ 1
bit_or_odd a b h = omega (arith, bit_or_step a b)

bit_or-eighth : (a b : ℕ) → bit_or a b / 8 ≡ bit_or (a / 8) (b / 8)
bit_or-eighth a b =
    rw (← regroup a, ← regroup b)
      (omega
        (arith, bit_or-half a b, bit_or-half (a / 2) (b / 2), bit_or-half (a / 2 / 2) (b / 2 / 2)))
  where
    regroup : (x : ℕ) → x / 2 / 2 / 2 ≡ x / 8
    regroup x = omega arith

-- A shift by the width of a page offset goes under `|`.
pub bit_or-page : (a b : ℕ) → bit_or a b / 4096 ≡ bit_or (a / 4096) (b / 4096)
bit_or-page a b =
    rw (← regroup a, ← regroup b)
      (omega (
        arith,
        bit_or-eighth a b,
        bit_or-eighth (a / 8) (b / 8),
        bit_or-eighth (a / 8 / 8) (b / 8 / 8),
        bit_or-eighth (a / 8 / 8 / 8) (b / 8 / 8 / 8),
      ))
  where
    regroup : (x : ℕ) → x / 8 / 8 / 8 / 8 ≡ x / 4096
    regroup x = omega arith

-- Flags below the page size leave the frame number of an entry alone.
pub bit_or-page_of_lt : (a p : ℕ) → p < 4096 → bit_or a p / 4096 ≡ a / 4096
bit_or-page_of_lt a p h =
    bit_or-page a p ∙ ap (bit_or (a / 4096)) none_above ∙ bit_or-zero (a / 4096)
  where
    none_above : p / 4096 ≡ 0
    none_above = omega arith
