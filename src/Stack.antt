-- ===== src/Stack.antt =====
-- The first stack of a program: com_sys_elf64_prepare_stack of
-- limine-c-template-x86-64/kernel/src/loader.c. Addresses of bytes do not wrap around, stack pointers
-- do. The arrays of strings are lists of their addresses without the NULL at the end; `strlen` is that
-- of string.c.
use willow_os.Prelude.{
  ℕ, zero, suc, ◌+◌, ◌-◌, ◌*◌, ◌/◌, ◌%◌, ◌^◌, ◌==◌, List, [], ◌∷◌, length, if◌then◌else◌,
}
use willow_os.Memory.{Memory, store, memcpy}
pub mod Words
pub mod Arguments
pub mod Pointers
pub mod Layout
pub mod Prepared

pub record ElfData : Type 0 where
  pub entry : ℕ
  pub phdr : ℕ
  pub phent_sz : ℕ
  pub phent_num : ℕ

pub record Stack : Type 0 where
  pub stackptr : ℕ
  pub memory : Memory

-- `p - n` on 64-bit numbers.
abbrev pub below : (n p : ℕ) → ℕ
below n p = (p + 2 ^ 64 - n % 2 ^ 64) % 2 ^ 64

-- `n` bytes of `v` from `a` on, the lowest first.
unfoldable pub store_word : (n v a : ℕ) → Memory → Memory
store_word zero v a m = m
store_word (suc n) v a m = store_word n (v / 256) (a + 1) (store m a (v % 256))

-- `PUSH(x)`.
unfoldable pub push : (x : ℕ) → Stack → Stack
unfolding store_word
push x s = record {
  stackptr = below 8 s.stackptr;
  memory = store_word 8 x (below 8 s.stackptr) s.memory;
}

-- The stack pointer before the first word: 16-byte aligned, less 8 where the words are odd in number.
unfoldable pub aligned : (argc envc stackptr : ℕ) → ℕ
aligned argc envc stackptr =
    if (argc + envc + 1) % 2 == 0 then stackptr / 16 * 16 else below 8 (stackptr / 16 * 16)

unfoldable pub push_all : List ℕ → Stack → Stack
unfolding push
push_all [] s = s
push_all (x ∷ xs) s = push_all xs (push x s)

-- The auxiliary vector and the NULL before it.
unfoldable pub push_auxiliary : ElfData → Stack → Stack
unfolding push_all
push_auxiliary d s =
    push_all (0 ∷ 0 ∷ d.entry ∷ 9 ∷ d.phdr ∷ 3 ∷ d.phent_sz ∷ 4 ∷ d.phent_num ∷ 5 ∷ 0 ∷ []) s

-- The words that mark what lies below.
unfoldable pub push_marks : (rounds : ℕ) → Stack → Stack
push_marks zero s = s
push_marks (suc k) s = push_marks k (push 0xdeadbeefcafebabe s)

module _ (strlen : Memory → ℕ → ℕ) where
  -- One of the two loops that copy strings.
  unfoldable pub copy_strings : List ℕ → Stack → Stack
  copy_strings [] s = s
  copy_strings (str ∷ rest) s =
      let len = strlen s.memory str + 1 in
      copy_strings rest (record {
        stackptr = below len s.stackptr;
        memory = memcpy (below len s.stackptr) str len s.memory;
      })

  -- One of the two loops that write pointers to the copies, from entry `i` on; with `off` at its end.
  unfoldable pub write_pointers : List ℕ → (i base off stack_end_virt : ℕ) → Memory → ℕ × Memory
  write_pointers [] i base off stack_end_virt m = (off, m)
  write_pointers (str ∷ rest) i base off stack_end_virt m =
      let off' = (off + (strlen m str + 1)) % 2 ^ 64 in
      write_pointers rest (i + 1) base off' stack_end_virt
        (store_word 8 (below off' stack_end_virt) (base + 8 * i) m)

  unfoldable pub push_pointers : List ℕ → (off stack_end_virt : ℕ) → Stack → ℕ × Stack
  unfolding write_pointers
  push_pointers strs off stack_end_virt s =
      let base = below (8 * length strs) s.stackptr in
      let (off', m) = write_pointers strs 0 base off stack_end_virt s.memory in
      (off', record { stackptr = base; memory = m })

  -- The words from the auxiliary vector down to `argc`.
  unfoldable pub push_words : ElfData → (stack_end_virt : ℕ) (argv envp : List ℕ) → Stack → Stack
  unfolding push_auxiliary push_pointers push
  push_words d stack_end_virt argv envp s =
      let (off, s1) = push_pointers envp 0 stack_end_virt (push_auxiliary d s) in
      let (_, s2) = push_pointers argv off stack_end_virt (push 0 s1) in push (length argv) s2

  -- What is returned, and the memory.
  unfoldable pub com_sys_elf64_prepare_stack :
      ElfData → (stack_end_virt : ℕ) (argv envp : List ℕ) → Memory → ℕ × Memory
  unfolding copy_strings push_words push_marks aligned
  com_sys_elf64_prepare_stack d stack_end_virt argv envp m =
      let s =
        copy_strings argv (copy_strings envp (record { stackptr = stack_end_virt; memory = m })) in
      let s' =
        push_words d stack_end_virt argv envp
          (record s { stackptr = aligned (length argv) (length envp) s.stackptr }) in
      let marked = push_marks 100 (record s' { stackptr = below 2400 s'.stackptr }) in
      (below (below s'.stackptr stack_end_virt) stack_end_virt, marked.memory)
