-- ===== src/Clock/Conversion.antt =====
-- Ticks and nanoseconds: tsc_ticks_to_ns and tsc_ns_to_ticks of
-- limine-c-template-x86-64/kernel/src/tsc.c.
use native.Mathlib.Nat.{
  div-add-mod', mul-add-div_right, mul-le-mul_right, div-le_of_le-mul, lt-mul-div-succ,
  lt_of_mul-lt-mul_left,
}
use willow_os.Prelude.{ℕ, ◌+◌, ◌*◌, ◌/◌, ◌%◌, ◌^◌, ◌≤◌, ◌<◌, ◌≡◌, ◌∙◌, ap, sym, arith}
use willow_os.Clock.{one_second, tsc_ticks_to_ns, tsc_ns_to_ticks}

-- The two parts of the sum are the quotient of the whole product.
split_product : (f t g : ℕ) → 0 < f → t / f * g + t % f * g / f ≡ t * g / f
split_product f t g positive =
    sym (mul-add-div_right positive (t / f * g) (t % f * g)) ∙ ap (λ x. x / f) whole
  where
    whole : t / f * g * f + t % f * g ≡ t * g
    whole = gather (t / f) (t % f) ∙ ap (λ x. x * g) (div-add-mod' t f)
      where
        gather : (q r : ℕ) → q * g * f + r * g ≡ (q * f + r) * g
        gather q r = grind arith

-- With a frequency of which 10^9 times does not pass 2^64, the conversion is the exact quotient,
-- rounded down, of a product that need not fit in 64 bits.
pub tsc_ticks_to_ns_exact :
    (tsc_freq ticks : ℕ)
    → 0 < tsc_freq
    → tsc_freq * one_second ≤ 2 ^ 64
    → tsc_ticks_to_ns tsc_freq ticks ≡ ticks * one_second / tsc_freq % 2 ^ 64
unfolding tsc_ticks_to_ns
tsc_ticks_to_ns_exact tsc_freq ticks positive fits =
    rw (small, ← split_product tsc_freq ticks one_second positive) (omega arith)
  where
    small : ticks % tsc_freq * one_second % 2 ^ 64 ≡ ticks % tsc_freq * one_second
    small = omega arith

-- A time that the conversion to ticks does not wrap around comes back from it late by no more than
-- one tick and a nanosecond, and never early.
pub tsc_ticks_to_ns-tsc_ns_to_ticks :
    (tsc_freq time : ℕ)
    → 0 < tsc_freq
    → tsc_freq * one_second ≤ 2 ^ 64
    → tsc_freq * time < 2 ^ 64
    → (tsc_ticks_to_ns tsc_freq (tsc_ns_to_ticks tsc_freq time) ≤ time)
      × (time
          ≤ tsc_ticks_to_ns tsc_freq (tsc_ns_to_ticks tsc_freq time) + one_second / tsc_freq + 1)
unfolding tsc_ns_to_ticks
tsc_ticks_to_ns-tsc_ns_to_ticks tsc_freq time positive fits few =
    rw (unwrapped, tsc_ticks_to_ns_exact tsc_freq ticks positive fits, kept) (low, high)
  where
    ticks : ℕ
    ticks = tsc_freq * time / one_second

    unwrapped : tsc_freq * time % 2 ^ 64 ≡ tsc_freq * time
    unwrapped = omega arith

    ns : ℕ
    ns = ticks * one_second / tsc_freq

    low : ns ≤ time
    low = div-le_of_le-mul tsc_freq (omega arith)

    kept : ns % 2 ^ 64 ≡ ns
    kept =
        let at_most : 1 * time ≤ tsc_freq * time = mul-le-mul_right time positive in
        omega (arith, low, at_most)

    high : time ≤ ns + one_second / tsc_freq + 1
    high =
        let product = spread tsc_freq ns (one_second / tsc_freq) in
        let below_next : tsc_freq * time < tsc_freq * (ns + one_second / tsc_freq + 2) = omega (
          arith,
          product,
          lt-mul-div-succ (ticks * one_second) positive,
          lt-mul-div-succ one_second positive,
        ) in
        omega (arith, lt_of_mul-lt-mul_left tsc_freq below_next)
      where
        spread : (f n g : ℕ) → f * (n + g + 2) ≡ f * (n + 1) + f * (g + 1)
        spread f n g = grind arith
