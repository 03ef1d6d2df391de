-- ===== src/Memory/Scan.antt =====
-- The scanning loops: what `memcmp` and `kstrlen` find.
use native.Mathlib.Decide.{dec_lt}
use native.Mathlib.Nat.{zero-add}
use willow_os.Prelude.{
  ℕ, zero, suc, ◌+◌, ◌≤◌, ◌<◌, ◌≡◌, ◌≢◌, some, ◌==◌, ltb, arith, Bool-cases, inl, inr, ==_iff,
  ne_zero,
}
use willow_os.Prelude.Int.{ℤ, pos, negsuc}
use willow_os.Memory.{Memory, memcmp_loop, memcmp, kstrlen_loop, kstrlen}

-- The two blocks agree before `i`, and the bytes at `i` decide.
pub data Decides (s1 s2 n : ℕ) (m : Memory) : ℤ → Type 0 where
  same : ((j : ℕ) → j < n → m (s1 + j) ≡ m (s2 + j)) → Decides s1 s2 n m (pos 0)
  less :
      (i : ℕ)
      → i < n
      → ((j : ℕ) → j < i → m (s1 + j) ≡ m (s2 + j))
      → m (s1 + i) < m (s2 + i)
      → Decides s1 s2 n m (negsuc 0)
  more :
      (i : ℕ)
      → i < n
      → ((j : ℕ) → j < i → m (s1 + j) ≡ m (s2 + j))
      → m (s2 + i) < m (s1 + i)
      → Decides s1 s2 n m (pos 1)

memcmp_loop-Decides :
    (k i s1 s2 : ℕ) (m : Memory)
    → ((j : ℕ) → j < i → m (s1 + j) ≡ m (s2 + j))
    → Decides s1 s2 (i + k) m (memcmp_loop k i s1 s2 m)
unfolding memcmp_loop
memcmp_loop-Decides zero i s1 s2 m agree = same (λ j h. agree j (omega arith))
memcmp_loop-Decides (suc k) i s1 s2 m agree = elim (Bool-cases (m (s1 + i) == m (s2 + i))) [
  | inl e ↦ rw e (rw regroup at (memcmp_loop-Decides k (i + 1) s1 s2 m (extend ((==_iff _ _).0 e))))
  | inr e ↦ elim (Bool-cases (ltb (m (s1 + i)) (m (s2 + i)))) [
    | inl l ↦ rw (e, l) (less i (omega arith) agree (ground arith))
    | inr l ↦ rw (e, l) (more i (omega arith) agree (ground arith))
  ]
]
  where
    regroup : i + 1 + k ≡ i + suc k
    regroup = omega arith

    extend : m (s1 + i) ≡ m (s2 + i) → (j : ℕ) → j < i + 1 → m (s1 + j) ≡ m (s2 + j)
    extend e j h = elim (dec_lt j i) [
      | yes below ↦ agree j below
      | no above ↦ let last : j ≡ i = omega arith in rw last e
    ]

-- `memcmp` compares by the first byte that differs: 0 if the `n` bytes agree, -1 if the first
-- block is smaller there, and 1 if it is larger.
pub memcmp-Decides : (s1 s2 n : ℕ) (m : Memory) → Decides s1 s2 n m (memcmp s1 s2 n m)
unfolding memcmp
memcmp-Decides s1 s2 n m =
    rw (zero-add n) at (memcmp_loop-Decides n 0 s1 s2 m (λ j h. absurd (omega arith)))

kstrlen_loop-first :
    (f s msg stop : ℕ) (m : Memory)
    → s ≤ stop
    → stop < s + f
    → m (msg + stop) ≡ 0
    → ((j : ℕ) → j < stop → m (msg + j) ≢ 0)
    → kstrlen_loop f s msg m ≡ some stop
unfolding kstrlen_loop
kstrlen_loop-first zero s msg stop m lo h z nz = absurd (omega arith)
kstrlen_loop-first (suc f) s msg stop m lo h z nz = elim (dec_lt s stop) [
  | yes below ↦
      rw (ne_zero _ (nz s below))
        (kstrlen_loop-first f (s + 1) msg stop m (omega arith) (omega arith) z nz)
  | no above ↦ let last : s ≡ stop = omega arith in rw (last, z)
]

-- `kstrlen` of a string that is not NULL is the number of bytes before its first NUL, with any
-- fuel above that number.
pub kstrlen-first :
    (fuel msg n : ℕ) (m : Memory)
    → msg ≢ 0
    → n < fuel
    → m (msg + n) ≡ 0
    → ((j : ℕ) → j < n → m (msg + j) ≢ 0)
    → kstrlen fuel msg m ≡ some n
unfolding kstrlen
kstrlen-first fuel msg n m ne h z nz =
    rw (ne_zero msg ne) (kstrlen_loop-first fuel 0 msg n m (omega arith) (omega arith) z nz)
