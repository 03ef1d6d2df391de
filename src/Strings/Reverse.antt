-- ===== src/Strings/Reverse.antt =====
-- The loop of `uint64_to_string` that turns the digits around.
use willow_os.Prelude.{
  ℕ, zero, suc, ◌+◌, ◌-◌, ◌*◌, ◌≤◌, ◌<◌, ◌≡◌, refl, sym, Bool, true, false, ◌&&◌, some, ltb, leb,
  ltb→lt, if◌then◌else◌, arith, ap, ◌∙◌,
}
use willow_os.Memory.{Memory, store}
use willow_os.Strings.{reverse_loop}

-- The memory with the bytes from `start` to `end` in the opposite order.
abbrev pub reversed : (start end : ℕ) → Memory → Memory
reversed start end m a = if leb start a && leb a end then m (start + end - a) else m a

pub reverse_loop-Reversed :
    (rounds start end : ℕ) (m : Memory)
    → end + 1 < start + 2 * rounds
    → start ≤ end + 1
    → (m' : Memory) × (reverse_loop rounds start end m ≡ some m')
      × ((a : ℕ) → m' a ≡ reversed start end m a)
unfolding reverse_loop
reverse_loop-Reversed zero start end m few order = absurd (omega arith)
reverse_loop-Reversed (suc k) start end m few order = split (ltb start end) refl (λ h.
    reverse_loop-Reversed k (start + 1) (end - 1) (store (store m start (m end)) end (m start))
      (ground arith) (ground arith))
  where
    split :
        (b : Bool)
        → ltb start end ≡ b
        → (ltb start end ≡ true
            → (m' : Memory) × (reverse_loop k
                  (start + 1)
                  (end - 1)
                  (store (store m start (m end)) end (m start))
                ≡ some m')
              × ((a : ℕ)
                  → m' a
                    ≡ reversed
                        (start + 1)
                        (end - 1)
                        (store (store m start (m end)) end (m start))
                        a))
        → (m' : Memory) × ((if b
              then reverse_loop k
                  (start + 1)
                  (end - 1)
                  (store (store m start (m end)) end (m start))
              else some m)
            ≡ some m')
          × ((a : ℕ) → m' a ≡ reversed start end m a)
    split true e ih = let (m', eq, at) = ih e in (m', eq, λ a. at a ∙ swapped a)
      where
        swapped :
            (a : ℕ)
            → reversed (start + 1) (end - 1) (store (store m start (m end)) end (m start)) a
              ≡ reversed start end m a
        swapped a = rw inner (ground (arith, at_end, at_start))
          where
            order' : start < end
            order' = ltb→lt start end e

            inner : start + 1 + (end - 1) - a ≡ start + end - a
            inner = omega (arith, order')

            at_end : a ≡ end → m start ≡ m (start + end - a)
            at_end h = ap m (omega (arith, order'))

            at_start : a ≡ start → m end ≡ m (start + end - a)
            at_start h = ap m (omega (arith, order'))
    split false e ih = (m, refl, λ a. sym (same a))
      where
        ge_of_not_lt : ltb start end ≡ false → end ≤ start
        ge_of_not_lt h = ground arith

        same : (a : ℕ) → reversed start end m a ≡ m a
        same a = ground (arith, middle)
          where
            last : end ≤ start
            last = ge_of_not_lt e

            middle : start ≤ a → a ≤ end → m (start + end - a) ≡ m a
            middle h l = ap m (omega (arith, last))
