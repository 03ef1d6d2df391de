-- ===== src/Tests/Stack.antt =====
-- The stack of a program with two arguments and one variable, and the theorem on loader.c at it.
use willow_os.Prelude.{
  ℕ, zero, suc, ◌+◌, ◌≤◌, ◌≡◌, refl, ap, inl, Bool, true, false, [], ◌∷◌, ◌==◌, if◌then◌else◌,
  arith,
}
use willow_os.Memory.{Memory}
use willow_os.Stack.{ElfData, com_sys_elf64_prepare_stack}
use willow_os.Stack.Arguments.{IsLocal}
use willow_os.Stack.Prepared.{IsPrepared, com_sys_elf64_prepare_stack-IsPrepared}

-- strlen on strings of at most 100 bytes.
count : (fuel : ℕ) → Memory → ℕ → ℕ
count zero m s = 0
count (suc k) m s = let rest = count k m (s + 1) in if m s == 0 then 0 else suc rest

count-IsLocal : (k : ℕ) → IsLocal (count k)
unfolding count
count-IsLocal zero m m' s same = refl
count-IsLocal (suc k) m m' s same = rw head (split (m s == 0) same (count-IsLocal k m m' (s + 1)))
  where
    head : m' s ≡ m s
    head = let at : s + 0 ≡ s = omega arith in rw (← at) (same 0 (omega arith))

    split :
        (b : Bool)
        → ((j : ℕ) → j ≤ (if b then 0 else suc (count k m (s + 1))) → m' (s + j) ≡ m (s + j))
        → (((j : ℕ) → j ≤ count k m (s + 1) → m' (s + 1 + j) ≡ m (s + 1 + j))
            → count k m' (s + 1) ≡ count k m (s + 1))
        → (if b then 0 else suc (count k m' (s + 1))) ≡ (if b then 0 else suc (count k m (s + 1)))
    split true rest later = refl
    split false rest later = ap suc (
        later (λ j low.
          let at : s + 1 + j ≡ s + suc j = omega arith in rw at (rest (suc j) (omega arith))))

-- "ab" at 0x1000, "c" at 0x2000 and the empty string at 0x3000.
abbrev memory : Memory
memory a = if a == 0x1000 then 97 else if a == 0x1001 then 98 else if a == 0x2000 then 99 else 0

abbrev program : ElfData
program = record { entry = 0x400000; phdr = 0x400040; phent_sz = 56; phent_num = 2 }

com_sys_elf64_prepare_stack-IsPrepared_example :
    IsPrepared (count 100) memory 0x10000 0x20000 program (0x1000 ∷ 0x2000 ∷ []) (0x3000 ∷ []) (
      com_sys_elf64_prepare_stack
        (count 100)
        program
        0x20000
        (0x1000 ∷ 0x2000 ∷ [])
        (0x3000 ∷ [])
        memory)
unfolding count
com_sys_elf64_prepare_stack-IsPrepared_example =
    com_sys_elf64_prepare_stack-IsPrepared (count 100) (count-IsLocal 100) memory 0x10000 0x20000
      (omega arith) program (omega arith, omega arith, omega arith, omega arith)
      (0x1000 ∷ 0x2000 ∷ []) (0x3000 ∷ []) (inl (omega arith), (inl (omega arith), tt))
      (inl (omega arith), tt) (omega arith)
