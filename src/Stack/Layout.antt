-- ===== src/Stack/Layout.antt =====
-- The stack that com_sys_elf64_prepare_stack of limine-c-template-x86-64/kernel/src/loader.c leaves.
use willow_os.Prelude.{
  ℕ, zero, suc, ◌+◌, ◌-◌, ◌*◌, ◌^◌, ◌≤◌, ◌<◌, ◌≡◌, ◌∙◌, ap, refl, List, [], ◌∷◌, ◌++◌, length,
  length-append, arith,
}
use mathlib.Core.Path.{subst}
use willow_os.Memory.{Memory}
use willow_os.Stack.{
  ElfData, Stack, push, push_all, push_auxiliary, push_marks, push_pointers, push_words,
}
use willow_os.Stack.Words.{Keeps, Keeps-within, Keeps-widen, Grows, Grows-trans, push-Grows}
use willow_os.Stack.Arguments.{IsLocal, total, places, length-places-sizes, sizes, Outside}
use willow_os.Stack.Pointers.{push_pointers-Grows}

-- The members are 64-bit words.
abbrev pub IsData : ElfData → Type 0
IsData d = (d.entry < 2 ^ 64) × (d.phdr < 2 ^ 64) × (d.phent_sz < 2 ^ 64) × (d.phent_num < 2 ^ 64)

-- The auxiliary vector, from the NULL before it on: AT_PHNUM, AT_PHENT, AT_PHDR, AT_ENTRY, AT_NULL.
abbrev pub auxiliary : ElfData → List ℕ
auxiliary d = 0 ∷ 5 ∷ d.phent_num ∷ 4 ∷ d.phent_sz ∷ 3 ∷ d.phdr ∷ 9 ∷ d.entry ∷ 0 ∷ 0 ∷ []

abbrev reverse_onto : List ℕ → List ℕ → List ℕ
reverse_onto [] ws = ws
reverse_onto (x ∷ xs) ws = reverse_onto xs (x ∷ ws)

abbrev Small : List ℕ → Type 0
Small [] = Unit
Small (x ∷ xs) = (x < 2 ^ 64) × Small xs

push_all-Grows :
    (xs : List ℕ) (s s' : Stack) (ws : List ℕ)
    → Grows s s' ws
    → Small xs
    → 8 * length xs ≤ s'.stackptr
    → s.stackptr < 2 ^ 64
    → Grows s (push_all xs s') (reverse_onto xs ws)
unfolding push_all
push_all-Grows [] s s' ws g values fits small = g
push_all-Grows (x ∷ xs) s s' ws g (value, values) fits small =
    push_all-Grows xs s (push x s') (x ∷ ws) (Grows-trans s s' (push x s') ws (x ∷ []) g one) values
      (omega (arith, one.down)) small
  where
    one : Grows s' (push x s') (x ∷ [])
    one = push-Grows x s' value (omega arith) (omega (arith, g.down))

Grows-refl : (s : Stack) → Grows s s []
Grows-refl s = record { down = omega arith; words = tt; keeps = λ a h. refl }

push_auxiliary-Grows :
    (d : ElfData) (s : Stack)
    → IsData d
    → 88 ≤ s.stackptr
    → s.stackptr < 2 ^ 64
    → Grows s (push_auxiliary d s) (auxiliary d)
unfolding push_auxiliary
push_auxiliary-Grows d s (entry, phdr, phent_sz, phent_num) fits small =
    push_all-Grows (0 ∷ 0 ∷ d.entry ∷ 9 ∷ d.phdr ∷ 3 ∷ d.phent_sz ∷ 4 ∷ d.phent_num ∷ 5 ∷ 0 ∷ []) s
      s [] (Grows-refl s)
      (
        omega arith,
        (
          omega arith,
          (
            entry,
            (
              omega arith,
              (
                phdr,
                (
                  omega arith,
                  (phent_sz, (omega arith, (phent_num, (omega arith, (omega arith, tt))))),
                ),
              ),
            ),
          ),
        ),
      )
      fits small

pub push_marks-Keeps :
    (k : ℕ) (s : Stack)
    → 8 * k ≤ s.stackptr
    → s.stackptr < 2 ^ 64
    → Keeps (s.stackptr - 8 * k) s.stackptr s.memory (push_marks k s).memory
unfolding push_marks
push_marks-Keeps zero s fits small = λ a off. refl
push_marks-Keeps (suc k) s fits small =
    Keeps-within (s.stackptr - 8 * suc k) ((push 0xdeadbeefcafebabe s).stackptr - 8 * k)
      (push 0xdeadbeefcafebabe s).stackptr s.stackptr s.memory (push 0xdeadbeefcafebabe s).memory
      (push_marks k (push 0xdeadbeefcafebabe s)).memory (omega (arith, one.down))
      (omega (arith, one.down))
      (Keeps-widen (s.stackptr - 8 * suc k) (push 0xdeadbeefcafebabe s).stackptr s.stackptr
        s.stackptr s.memory (push 0xdeadbeefcafebabe s).memory (omega (arith, one.down))
        (omega arith) one.keeps)
      (push_marks-Keeps k (push 0xdeadbeefcafebabe s) (omega (arith, one.down))
        (omega (arith, one.down)))
  where
    one : Grows s (push 0xdeadbeefcafebabe s) (0xdeadbeefcafebabe ∷ [])
    one = push-Grows 0xdeadbeefcafebabe s (omega arith) (omega arith) small

-- The words of the stack from its pointer up: the number of arguments, the pointers to them, NULL, the
-- pointers to the environment, NULL, and the auxiliary vector.
abbrev pub layout : (Memory → ℕ → ℕ) → Memory → (end : ℕ) → ElfData → (argv envp : List ℕ) → List ℕ
layout strlen m end d argv envp =
    length argv
    ∷ (places end (total (sizes strlen m envp)) (sizes strlen m argv)
        ++ (0 ∷ (places end 0 (sizes strlen m envp) ++ auxiliary d)))

module _ (strlen : Memory → ℕ → ℕ) (local : IsLocal strlen) (m : Memory) (lo hi : ℕ)
    (small : hi < 2 ^ 64) (d : ElfData) (values : IsData d) (argv envp : List ℕ)
    (out_argv : Outside strlen m lo hi argv) (out_envp : Outside strlen m lo hi envp)
    (fits : total (sizes strlen m envp) + total (sizes strlen m argv) ≤ hi)
    (few : length argv < 2 ^ 64) where
  pub push_words-Grows :
      (s : Stack)
      → Keeps lo hi m s.memory
      → lo + 8 * (13 + length argv + length envp) ≤ s.stackptr
      → s.stackptr ≤ hi
      → Grows s (push_words strlen d hi argv envp s) (layout strlen m hi d argv envp)
  unfolding push_words
  push_words-Grows s so_far room high =
      arguments (push_pointers strlen envp 0 hi s1).0 (push_pointers strlen envp 0 hi s1).1
        environment.0 (Grows-trans s s1 (push_pointers strlen envp 0 hi s1).1 _ _ aux environment.1)
    where
      s1 : Stack
      s1 = push_auxiliary d s

      aux : Grows s s1 (auxiliary d)
      aux = push_auxiliary-Grows d s values (omega arith) (omega arith)

      kept : (s' : Stack) (ws : List ℕ) → Grows s s' ws → lo ≤ s'.stackptr → Keeps lo hi m s'.memory
      kept s' ws g low =
          Keeps-within lo s'.stackptr s.stackptr hi m s.memory s'.memory low high so_far g.keeps

      environment :
          (let (off, s2) = push_pointers strlen envp 0 hi s1 in
            (off ≡ 0 + total (sizes strlen m envp))
            × Grows s1 s2 (places hi 0 (sizes strlen m envp)))
      environment =
          push_pointers-Grows strlen local m lo hi small envp 0 s1
            (kept s1 (auxiliary d) aux (omega (arith, aux.down))) out_envp (omega (arith, aux.down))
            (omega (arith, aux.down)) (omega arith)

      arguments :
          (off : ℕ) (s2 : Stack)
          → off ≡ 0 + total (sizes strlen m envp)
          → Grows s s2 (places hi 0 (sizes strlen m envp) ++ auxiliary d)
          → Grows s
              (push (length argv) (push_pointers strlen argv off hi (push 0 s2)).1)
              (layout strlen m hi d argv envp)
      arguments off s2 e g =
          Grows-trans s s4 (push (length argv) s4) _ (length argv ∷ [])
            (Grows-trans s s3 s4 _ _ g3 grown)
            (push-Grows (length argv) s4 few (omega (arith, g3.down, grown.down, size, count'))
              (omega (arith, g3.down, grown.down)))
        where
          count : length (places hi 0 (sizes strlen m envp)) ≡ length envp
          count = length-places-sizes hi 0 strlen m envp

          count' :
              length (places hi (total (sizes strlen m envp)) (sizes strlen m argv)) ≡ length argv
          count' = length-places-sizes hi (total (sizes strlen m envp)) strlen m argv

          size : length (places hi 0 (sizes strlen m envp) ++ auxiliary d) ≡ length envp + 11
          size =
              length-append (places hi 0 (sizes strlen m envp)) (auxiliary d)
              ∙ ap (λ n. n + 11) count

          s3 : Stack
          s3 = push 0 s2

          g3 : Grows s s3 (0 ∷ places hi 0 (sizes strlen m envp) ++ auxiliary d)
          g3 =
              Grows-trans s s2 s3 _ (0 ∷ []) g (
                push-Grows 0 s2 (omega arith) (omega (arith, g.down, size)) (omega (arith, g.down)))

          s4 : Stack
          s4 = (push_pointers strlen argv off hi s3).1

          grown : Grows s3 s4 (places hi (total (sizes strlen m envp)) (sizes strlen m argv))
          grown =
              subst
                (λ x.
                  Grows s3 (push_pointers strlen argv off hi s3).1
                    (places hi x (sizes strlen m argv)))
                (e ∙ omega arith)
                (push_pointers-Grows strlen local m lo hi small argv off s3
                  (kept s3 _ g3 (omega (arith, g3.down, size))) out_argv
                  (omega (arith, g3.down, size)) (omega (arith, g3.down)) (omega (arith, e))).1
