-- ===== src/Stack/Prepared.antt =====
-- What com_sys_elf64_prepare_stack of limine-c-template-x86-64/kernel/src/loader.c returns and leaves.
use willow_os.Prelude.{
  ℕ, ◌+◌, ◌-◌, ◌*◌, ◌%◌, ◌^◌, ◌≤◌, ◌<◌, ◌≡◌, ◌∙◌, refl, inr, List, [], ◌∷◌, ◌++◌, length,
  length-append, arith,
}
use mathlib.Core.Path.{subst}
use willow_os.Memory.{Memory}
use willow_os.Stack.{
  ElfData, Stack, below, aligned, push_marks, copy_strings, push_words, com_sys_elf64_prepare_stack,
}
use willow_os.Stack.Words.{Keeps, Words, Words-Keeps, Keeps-trans, Keeps-within, Keeps-widen, Grows}
use willow_os.Stack.Arguments.{
  IsLocal, total, places, length-places-sizes, sizes, Copies, Outside, Strings,
  copy_strings-Strings,
}
use willow_os.Stack.Layout.{IsData, auxiliary, layout, push_marks-Keeps, push_words-Grows}

Copies-Keeps :
    (strlen : Memory → ℕ → ℕ) (m before after : Memory) (lo hi end off : ℕ) (strs : List ℕ)
    → Keeps lo hi before after
    → hi + (off + total (sizes strlen m strs)) ≤ end
    → Copies strlen m before strs (places end off (sizes strlen m strs))
    → Copies strlen m after strs (places end off (sizes strlen m strs))
Copies-Keeps strlen m before after lo hi end off [] keeps room h = tt
Copies-Keeps strlen m before after lo hi end off (s ∷ ss) keeps room (h, hs) = (
  λ j low. keeps (end - (off + (strlen m s + 1)) + j) (inr (omega arith)) ∙ h j low,
  Copies-Keeps strlen m before after lo hi end (off + (strlen m s + 1)) ss keeps (omega arith) hs,
)

-- The words that follow are 13 and one for each string, so that the last of them is aligned.
aligned_lem :
    (argc envc p : ℕ)
    → 8 * (13 + argc + envc) + 23 ≤ p
    → p < 2 ^ 64
    → (aligned argc envc p ≤ p)
      × (p ≤ aligned argc envc p + 23)
      × ((aligned argc envc p - 8 * (13 + argc + envc)) % 16 ≡ 0)
unfolding aligned
aligned_lem argc envc p fits small = ground arith

-- A program's first stack: the pointer is aligned, the words of `layout` stand from it up, the pointers
-- lead to copies of the strings, and nothing outside the stack has changed.
pub record IsPrepared (strlen : Memory → ℕ → ℕ) (m : Memory) (lo hi : ℕ) (d : ElfData)
    (argv envp : List ℕ) (r : ℕ × Memory) : Type 0 where
  pub is_aligned : r.0 % 16 ≡ 0
  pub words : Words r.1 r.0 (layout strlen m hi d argv envp)
  pub environment : Copies strlen m r.1 envp (places hi 0 (sizes strlen m envp))
  pub arguments :
      Copies strlen m r.1 argv (places hi (total (sizes strlen m envp)) (sizes strlen m argv))
  pub keeps : Keeps lo hi m r.1

module _ (strlen : Memory → ℕ → ℕ) (local : IsLocal strlen) (m : Memory) (lo hi : ℕ)
    (small : hi < 2 ^ 64) (d : ElfData) (values : IsData d) (argv envp : List ℕ)
    (out_argv : Outside strlen m lo hi argv) (out_envp : Outside strlen m lo hi envp)
    (room : lo
        + (total (sizes strlen m envp) + total (sizes strlen m argv))
        + 8 * (length argv + length envp)
        + 3400
      ≤ hi) where
  top : Stack
  top = record { stackptr = hi; memory = m }

  with_envp : Stack
  with_envp = copy_strings strlen envp top

  envp-Strings : Strings strlen local m lo hi small top with_envp 0 envp
  unfolding top with_envp
  envp-Strings =
      copy_strings-Strings strlen local m lo hi small envp 0 top (λ a h. refl) out_envp
        (omega arith) (omega arith)

  with_argv : Stack
  with_argv = copy_strings strlen argv with_envp

  argv-Strings :
      Strings strlen local m lo hi small with_envp with_argv (total (sizes strlen m envp)) argv
  unfolding with_argv top
  argv-Strings =
      copy_strings-Strings strlen local m lo hi small argv (total (sizes strlen m envp)) with_envp
        so_far out_argv (omega (arith, envp-Strings.down)) (omega arith)
    where
      so_far : Keeps lo hi m with_envp.memory
      so_far =
          Keeps-widen lo with_envp.stackptr hi hi m with_envp.memory
            (omega (arith, envp-Strings.down)) (omega arith) envp-Strings.keeps

  argv_kept : Keeps lo hi m with_argv.memory
  unfolding top
  argv_kept =
      Keeps-widen lo with_argv.stackptr hi hi m with_argv.memory (omega (arith, argv-Strings.down))
        (omega arith)
        (Keeps-trans with_argv.stackptr with_envp.stackptr hi m with_envp.memory with_argv.memory
          (omega (arith, argv-Strings.down, envp-Strings.down)) (omega (arith, envp-Strings.down))
          envp-Strings.keeps argv-Strings.keeps)

  start : Stack
  start = record {
    stackptr = aligned (length argv) (length envp) with_argv.stackptr;
    memory = with_argv.memory;
  }

  start_lem :
      (start.stackptr ≤ with_argv.stackptr)
      × (with_argv.stackptr ≤ start.stackptr + 23)
      × ((start.stackptr - 8 * (13 + length argv + length envp)) % 16 ≡ 0)
  unfolding start
  start_lem =
      aligned_lem (length argv) (length envp) with_argv.stackptr (omega (arith, argv-Strings.down))
        (omega (arith, argv-Strings.down))

  filled : Stack
  filled = push_words strlen d hi argv envp start

  filled-Grows : Grows start filled (layout strlen m hi d argv envp)
  unfolding filled start
  filled-Grows =
      push_words-Grows strlen local m lo hi small d values argv envp out_argv out_envp (omega arith)
        (omega arith) start argv_kept (omega (arith, start_lem, argv-Strings.down))
        (omega (arith, start_lem, argv-Strings.down))

  layout_length : length (layout strlen m hi d argv envp) ≡ 13 + length argv + length envp
  layout_length = omega (
    arith,
    length-append (places hi (total (sizes strlen m envp)) (sizes strlen m argv))
        (0 ∷ (places hi 0 (sizes strlen m envp) ++ auxiliary d)),
    length-append (places hi 0 (sizes strlen m envp)) (auxiliary d),
    length-places-sizes hi (total (sizes strlen m envp)) strlen m argv,
    length-places-sizes hi 0 strlen m envp,
  )

  marked : Stack
  marked = push_marks 100 (record { stackptr = below 2400 filled.stackptr; memory = filled.memory })

  filled_room :
      (lo + 3200 ≤ filled.stackptr)
      × (filled.stackptr ≤ with_argv.stackptr)
      × (with_argv.stackptr ≤ hi)
      × (filled.stackptr + 8 * (13 + length argv + length envp) ≡ start.stackptr)
  filled_room = omega (arith, filled-Grows.down, start_lem, argv-Strings.down, layout_length)

  marked-Keeps : Keeps lo filled.stackptr filled.memory marked.memory
  unfolding marked
  marked-Keeps =
      Keeps-widen lo (below 2400 filled.stackptr - 8 * 100) (below 2400 filled.stackptr)
        filled.stackptr filled.memory marked.memory (omega (arith, filled_room))
        (omega (arith, filled_room))
        (push_marks-Keeps 100
          (record { stackptr = below 2400 filled.stackptr; memory = filled.memory })
          (omega (arith, filled_room)) (omega (arith, filled_room)))

  all_kept : Keeps lo with_argv.stackptr with_argv.memory marked.memory
  unfolding start
  all_kept =
      Keeps-within lo lo filled.stackptr with_argv.stackptr with_argv.memory filled.memory
        marked.memory (omega arith) (omega (arith, filled_room))
        (Keeps-widen lo filled.stackptr start.stackptr with_argv.stackptr with_argv.memory
          filled.memory (omega (arith, filled_room)) (omega (arith, start_lem)) filled-Grows.keeps)
        marked-Keeps

  prepared : IsPrepared strlen m lo hi d argv envp (filled.stackptr, marked.memory)
  prepared = record {
    is_aligned = omega (arith, start_lem, filled_room);
    words =
        Words-Keeps lo filled.stackptr filled.stackptr filled.memory marked.memory
          (layout strlen m hi d argv envp) marked-Keeps (omega arith) filled-Grows.words;
    environment =
        Copies-Keeps strlen m with_argv.memory marked.memory lo with_argv.stackptr hi 0 envp
          all_kept (omega (arith, argv-Strings.down))
          (Copies-Keeps strlen m with_envp.memory with_argv.memory with_argv.stackptr
            with_envp.stackptr hi 0 envp argv-Strings.keeps (omega (arith, envp-Strings.down))
            envp-Strings.copies);
    arguments =
        Copies-Keeps strlen m with_argv.memory marked.memory lo with_argv.stackptr hi
          (total (sizes strlen m envp)) argv all_kept (omega (arith, argv-Strings.down))
          argv-Strings.copies;
    keeps =
        Keeps-within lo lo with_argv.stackptr hi m with_argv.memory marked.memory (omega arith)
          (omega (arith, filled_room)) argv_kept all_kept;
  }

  -- A stack with room for the strings, 8 bytes for each and 3,400 more, which no string meets, and whose
  -- end does not pass 2^64: the pointer that is returned is a multiple of 16, from it up stand the number
  -- of arguments, the pointers to them, NULL, the pointers to the environment, NULL and the auxiliary
  -- vector, each pointer leads to a copy of its string with the terminator, and nothing outside the
  -- stack changes.
  pub com_sys_elf64_prepare_stack-IsPrepared :
      IsPrepared strlen m lo hi d argv envp (com_sys_elf64_prepare_stack strlen d hi argv envp m)
  unfolding com_sys_elf64_prepare_stack marked filled start with_argv with_envp top
  com_sys_elf64_prepare_stack-IsPrepared =
      subst (λ x. IsPrepared strlen m lo hi d argv envp (x, marked.memory))
        (omega (arith, filled_room)) prepared
