-- ===== src/Boot/Descriptor.antt =====
-- The fields of a segment descriptor.
use native.Mathlib.Nat.{pow-suc}
use willow_os.Prelude.{
  ℕ, zero, suc, ◌+◌, ◌*◌, ◌/◌, ◌%◌, ◌^◌, bit_or, ◌<◌, ◌≡◌, false, ltb, arith, bit_or_step,
  zero-bit_or, ap, ◌∙◌,
}
use willow_os.Boot.{create_descriptor, create_tss_descriptor}

-- `|` of a number below 2^k and one shifted by k is their sum.
bit_or-shifted : (k a b : ℕ) → a < 2 ^ k → bit_or a (b * 2 ^ k) ≡ a + b * 2 ^ k
bit_or-shifted zero a b h =
    let none_below : a ≡ 0 = omega arith in rw none_below (omega (arith, zero-bit_or (b * 2 ^ 0)))
bit_or-shifted (suc k) a b h = rw twice (doubled (b * 2 ^ k) (bit_or-shifted k (a / 2) b half))
  where
    swapped : (p : ℕ) → b * (p * 2) ≡ 2 * (b * p)
    swapped p = grind arith

    twice : b * 2 ^ suc k ≡ 2 * (b * 2 ^ k)
    twice = ap (◌*◌ b) (pow-suc 2 k) ∙ swapped (2 ^ k)

    half : a / 2 < 2 ^ k
    half = omega (arith, h, pow-suc 2 k)

    doubled : (q : ℕ) → bit_or (a / 2) q ≡ a / 2 + q → bit_or a (2 * q) ≡ a + 2 * q
    doubled q ih = omega (arith, bit_or_step a (2 * q), ap (bit_or (a / 2)) (halved q), ih)
      where
        halved : (q : ℕ) → 2 * q / 2 ≡ q
        halved q = omega arith

-- The fields of a descriptor of a 32-bit base, a 20-bit limit, an access byte and a byte of flags, of
-- which the low four bits count.
pub create_descriptor-fields :
    (base limit access flags : ℕ)
    → base < 2 ^ 32
    → limit < 2 ^ 20
    → access < 2 ^ 8
    → (let descriptor = create_descriptor base limit access flags in
        (descriptor % 2 ^ 16 + descriptor / 2 ^ 48 % 2 ^ 4 * 2 ^ 16 ≡ limit)
        × (descriptor / 2 ^ 16 % 2 ^ 24 + descriptor / 2 ^ 56 * 2 ^ 24 ≡ base)
        × (descriptor / 2 ^ 40 % 2 ^ 8 ≡ access)
        × (descriptor / 2 ^ 52 % 2 ^ 4 ≡ flags % 2 ^ 4))
unfolding create_descriptor
create_descriptor-fields base limit access flags hb hl ha =
    rw
      (
        fits,
        bit_or-shifted 16 (limit % 2 ^ 16) (base % 2 ^ 16) (omega arith),
        bit_or-shifted 32 low (base / 2 ^ 16 % 2 ^ 8) (omega arith),
        bit_or-shifted 40 middle access (omega arith),
        bit_or-shifted 48 with_access (limit / 2 ^ 16 % 2 ^ 4) (omega arith),
        bit_or-shifted 52 with_limit (flags % 2 ^ 4) (omega arith),
        bit_or-shifted 56 with_flags (base / 2 ^ 24 % 2 ^ 8) (omega arith),
      )
      (omega arith, omega arith, omega arith, omega arith)
  where
    fits : ltb 0xfffff limit ≡ false
    fits = ground arith

    low : ℕ
    low = limit % 2 ^ 16 + base % 2 ^ 16 * 2 ^ 16

    middle : ℕ
    middle = low + base / 2 ^ 16 % 2 ^ 8 * 2 ^ 32

    with_access : ℕ
    with_access = middle + access * 2 ^ 40

    with_limit : ℕ
    with_limit = with_access + limit / 2 ^ 16 % 2 ^ 4 * 2 ^ 48

    with_flags : ℕ
    with_flags = with_limit + flags % 2 ^ 4 * 2 ^ 52

-- The fields of the task state descriptor of a 64-bit base and a 16-bit limit: the base over both
-- words, the limit, the access byte 0x89 of an available 64-bit segment, and no flags.
pub create_tss_descriptor-fields :
    (base limit : ℕ)
    → base < 2 ^ 64
    → limit < 2 ^ 16
    → (let (low, high) = create_tss_descriptor base limit in
        (low / 2 ^ 16 % 2 ^ 24 + low / 2 ^ 56 * 2 ^ 24 + high * 2 ^ 32 ≡ base)
        × (low % 2 ^ 16 ≡ limit)
        × (low / 2 ^ 40 % 2 ^ 8 ≡ 0x89)
        × (low / 2 ^ 48 % 2 ^ 8 ≡ 0))
unfolding create_tss_descriptor
create_tss_descriptor-fields base limit hb hl =
    rw
      (
        bit_or-shifted 16 (limit % 2 ^ 16) (base % 2 ^ 24) (omega arith),
        bit_or-shifted 40 low 0x89 (omega arith),
        bit_or-shifted 48 with_access (limit / 2 ^ 16 % 2 ^ 4) (omega arith),
        bit_or-shifted 56 with_limit (base / 2 ^ 24 % 2 ^ 8) (omega arith),
      )
      (omega arith, omega arith, omega arith, omega arith)
  where
    low : ℕ
    low = limit % 2 ^ 16 + base % 2 ^ 24 * 2 ^ 16

    with_access : ℕ
    with_access = low + 0x89 * 2 ^ 40

    with_limit : ℕ
    with_limit = with_access + limit / 2 ^ 16 % 2 ^ 4 * 2 ^ 48
