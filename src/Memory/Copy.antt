-- ===== src/Memory/Copy.antt =====
-- The copying loops against a copy made at once.
use willow_os.Prelude.{
  ℕ, zero, suc, ◌+◌, ◌-◌, ◌%◌, ◌^◌, ◌≤◌, ◌≡◌, ◌⊎◌, inl, inr, true, ◌&&◌, ltb, leb, if◌then◌else◌,
  arith, ap, leb→le,
}
use willow_os.Memory.{Memory, store, copy_up, copy_down, memcpy, memmove, fill_up, memset}

-- The memory in which the `n` bytes at `dest` are those that stood at `src`.
abbrev pub copied : (dest src n : ℕ) → Memory → Memory
copied dest src n m a = if leb dest a && ltb a (dest + n) then m (src + (a - dest)) else m a

-- Counting up is safe if the target starts at or before the source, or past its end.
abbrev pub UpSafe : (dest src n : ℕ) → Type 0
UpSafe dest src n = (dest ≤ src) ⊎ (src + n ≤ dest)

copy_up-eq :
    (k i dest src : ℕ) (m : Memory) (a : ℕ)
    → UpSafe dest src (i + k)
    → copy_up k i dest src m a
      ≡ (if leb (dest + i) a && ltb a (dest + i + k) then m (src + (a - dest)) else m a)
unfolding copy_up
copy_up-eq zero i dest src m a safe = ground arith
copy_up-eq (suc k) i dest src m a safe =
    ground
      (arith, copy_up-eq k (i + 1) dest src (store m (dest + i) (m (src + i))) a (shift safe), here)
  where
    shift : UpSafe dest src (i + suc k) → UpSafe dest src (i + 1 + k)
    shift (inl h) = inl h
    shift (inr h) = inr (omega arith)

    here : dest + i ≡ a → m (src + (a - dest)) ≡ m (src + i)
    here e = ap m (omega arith)

copy_down-eq :
    (k dest src : ℕ) (m : Memory) (a : ℕ)
    → src ≤ dest
    → copy_down k dest src m a ≡ copied dest src k m a
unfolding copy_down
copy_down-eq zero dest src m a safe = ground arith
copy_down-eq (suc k) dest src m a safe =
    ground (arith, copy_down-eq k dest src (store m (dest + k) (m (src + k))) a safe, here)
  where
    here : dest + k ≡ a → m (src + (a - dest)) ≡ m (src + k)
    here e = ap m (omega arith)

-- `memcpy` makes the copy if its target starts at or before the source, or past the source's end.
pub memcpy-copied :
    (dest src n : ℕ) (m : Memory) (a : ℕ)
    → UpSafe dest src n
    → memcpy dest src n m a ≡ copied dest src n m a
unfolding memcpy
memcpy-copied dest src n m a safe = ground (arith, copy_up-eq n 0 dest src m a (from_zero safe))
  where
    from_zero : UpSafe dest src n → UpSafe dest src (0 + n)
    from_zero (inl h) = inl h
    from_zero (inr h) = inr (omega arith)

-- `memmove` makes the copy however its two blocks overlap.
pub memmove-copied :
    (dest src n : ℕ) (m : Memory) (a : ℕ) → memmove dest src n m a ≡ copied dest src n m a
unfolding memmove
memmove-copied dest src n m a =
    ground (arith, copy_up-eq n 0 dest src m a, copy_down-eq n dest src m a, here)
  where
    here : dest ≡ src → leb dest a ≡ true → m (src + (a - dest)) ≡ m a
    here e h = ap m (omega (arith, leb→le dest a h))

fill_up-eq :
    (k i s c : ℕ) (m : Memory) (a : ℕ)
    → fill_up k i s c m a ≡ (if leb (s + i) a && ltb a (s + i + k) then c % 2 ^ 8 else m a)
unfolding fill_up
fill_up-eq zero i s c m a = ground arith
fill_up-eq (suc k) i s c m a =
    ground (arith, fill_up-eq k (i + 1) s c (store m (s + i) (c % 2 ^ 8)) a)

-- `memset` writes the low byte of `c` to the `n` bytes from `s` on, and nothing else.
pub memset-fills :
    (s c n : ℕ) (m : Memory) (a : ℕ)
    → memset s c n m a ≡ (if leb s a && ltb a (s + n) then c % 2 ^ 8 else m a)
unfolding memset
memset-fills s c n m a = ground (arith, fill_up-eq n 0 s c m a)
