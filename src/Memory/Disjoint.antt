-- ===== src/Memory/Disjoint.antt =====
-- Copies between blocks that do not meet, and fills, byte by byte: memcpy and memset of
-- limine-c-template-x86-64/kernel/src/main.c.
use willow_os.Prelude.{
  ℕ, ◌+◌, ◌%◌, ◌^◌, ◌≤◌, ◌<◌, ◌≡◌, refl, true, false, ◌&&◌, ltb, leb, arith, ap, ◌∙◌, ◌⊎◌, inl, inr,
}
use willow_os.Memory.{Memory, memcpy, memset}
use willow_os.Memory.Copy.{UpSafe, memcpy-copied, memset-fills}

-- Two blocks of memory that do not meet.
abbrev pub Apart : (a n b k : ℕ) → Type 0
Apart a n b k = (a + n ≤ b) ⊎ (b + k ≤ a)

pub memcpy-inside :
    (dest src n i : ℕ) (m : Memory)
    → Apart dest n src n
    → i < n
    → memcpy dest src n m (dest + i) ≡ m (src + i)
memcpy-inside dest src n i m apart below =
    memcpy-copied dest src n m (dest + i) (safe apart) ∙ rw inside (ap m (omega arith))
  where
    safe : Apart dest n src n → UpSafe dest src n
    safe (inl h) = inl (omega arith)
    safe (inr h) = inr h

    inside : (leb dest (dest + i) && ltb (dest + i) (dest + n)) ≡ true
    inside = ground arith

pub memcpy-outside :
    (dest src n a : ℕ) (m : Memory)
    → Apart dest n src n
    → Apart dest n a 1
    → memcpy dest src n m a ≡ m a
memcpy-outside dest src n a m apart off =
    memcpy-copied dest src n m a (safe apart) ∙ rw (away off) refl
  where
    safe : Apart dest n src n → UpSafe dest src n
    safe (inl h) = inl (omega arith)
    safe (inr h) = inr h

    away : Apart dest n a 1 → (leb dest a && ltb a (dest + n)) ≡ false
    away (inl h) = ground arith
    away (inr h) = ground arith

pub memset-inside : (s c n i : ℕ) (m : Memory) → i < n → memset s c n m (s + i) ≡ c % 2 ^ 8
memset-inside s c n i m below = memset-fills s c n m (s + i) ∙ rw inside refl
  where
    inside : (leb s (s + i) && ltb (s + i) (s + n)) ≡ true
    inside = ground arith

pub memset-outside : (s c n a : ℕ) (m : Memory) → Apart s n a 1 → memset s c n m a ≡ m a
memset-outside s c n a m off = memset-fills s c n m a ∙ rw (away off) refl
  where
    away : Apart s n a 1 → (leb s a && ltb a (s + n)) ≡ false
    away (inl h) = ground arith
    away (inr h) = ground arith
