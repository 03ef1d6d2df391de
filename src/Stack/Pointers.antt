-- ===== src/Stack/Pointers.antt =====
-- The pointers to the strings, in com_sys_elf64_prepare_stack of
-- limine-c-template-x86-64/kernel/src/loader.c.
use willow_os.Prelude.{
  ℕ, suc, ◌+◌, ◌*◌, ◌%◌, ◌^◌, ◌≤◌, ◌<◌, ◌≡◌, ◌∙◌, refl, inl, List, [], ◌∷◌, length, arith,
}
use mathlib.Core.Path.{subst}
use willow_os.Memory.{Memory}
use willow_os.Stack.{Stack, below, store_word, write_pointers, push_pointers}
use willow_os.Stack.Words.{
  Keeps, Words, Keeps-within, Keeps-widen, Grows, store_word-Keeps, word-store_word, word-Keeps,
}
use willow_os.Stack.Arguments.{
  IsLocal, total, places, length-places-sizes, sizes, Outside, strlen-Keeps,
}

module _ (strlen : Memory → ℕ → ℕ) (local : IsLocal strlen) (m : Memory) (lo hi : ℕ)
    (small : hi < 2 ^ 64) where
  -- What holds after the pointers to strings have been written from `start` on, over `before`.
  record Pointers (before : Memory) (start off : ℕ) (strs : List ℕ) (r : ℕ × Memory) : Type 0 where
    offset : r.0 ≡ off + total (sizes strlen m strs)
    words : Words r.1 start (places hi off (sizes strlen m strs))
    keeps : Keeps start (start + 8 * length strs) before r.1

  write_pointers-Pointers :
      (strs : List ℕ) (i base off : ℕ) (before : Memory)
      → Keeps lo hi m before
      → Outside strlen m lo hi strs
      → lo ≤ base + 8 * i
      → base + 8 * (i + length strs) ≤ hi
      → off + total (sizes strlen m strs) ≤ hi
      → Pointers before (base + 8 * i) off strs (write_pointers strlen strs i base off hi before)
  unfolding write_pointers
  write_pointers-Pointers [] i base off before so_far out low high fits = record {
    offset = omega arith;
    words = tt;
    keeps = λ a h. refl;
  }
  write_pointers-Pointers (str ∷ rest) i base off before so_far (away, out) low high fits =
      rw same (
        onward (
          write_pointers-Pointers rest (i + 1) base off' after so_far' out (omega arith)
            (omega arith) (omega arith)))
    where
      off' : ℕ
      off' = off + (strlen m str + 1)

      same : (off + (strlen before str + 1)) % 2 ^ 64 ≡ off'
      same = omega (arith, strlen-Keeps strlen local m lo hi small before str so_far away)

      after : Memory
      after = store_word 8 (below off' hi) (base + 8 * i) before

      written : Keeps (base + 8 * i) (base + 8 * i + 8) before after
      written = store_word-Keeps 8 (below off' hi) (base + 8 * i) before

      so_far' : Keeps lo hi m after
      so_far' =
          Keeps-within lo (base + 8 * i) (base + 8 * i + 8) hi m before after low (omega arith)
            so_far written

      start : base + 8 * (i + 1) ≡ base + 8 * i + 8
      start = omega arith

      onward :
          Pointers after
            (base + 8 * (i + 1))
            off'
            rest
            (write_pointers strlen rest (i + 1) base off' hi after)
          → Pointers before
              (base + 8 * i)
              off
              (str ∷ rest)
              (write_pointers strlen rest (i + 1) base off' hi after)
      onward h = record {
        offset = omega (arith, h.offset);
        words = (
          word-Keeps 8 (base + 8 * (i + 1)) (base + 8 * (i + 1) + 8 * length rest) (base + 8 * i)
                after (write_pointers strlen rest (i + 1) base off' hi after).1 h.keeps
                (inl (omega arith))
              ∙ word-store_word 8 (below off' hi) (base + 8 * i) before (omega arith)
              ∙ omega arith,
          rw (← start) h.words,
        );
        keeps =
            Keeps-within (base + 8 * i) (base + 8 * (i + 1)) (base + 8 * (i + 1) + 8 * length rest)
              (base + 8 * i + 8 * suc (length rest)) before after
              (write_pointers strlen rest (i + 1) base off' hi after).1 (omega arith) (omega arith)
              (Keeps-widen (base + 8 * i) (base + 8 * i) (base + 8 * i + 8)
                (base + 8 * i + 8 * suc (length rest)) before after (omega arith) (omega arith)
                written)
              h.keeps;
      }

  pub push_pointers-Grows :
      (strs : List ℕ) (off : ℕ) (s : Stack)
      → Keeps lo hi m s.memory
      → Outside strlen m lo hi strs
      → lo + 8 * length strs ≤ s.stackptr
      → s.stackptr ≤ hi
      → off + total (sizes strlen m strs) ≤ hi
      → (let (off', s') = push_pointers strlen strs off hi s in
          (off' ≡ off + total (sizes strlen m strs))
          × Grows s s' (places hi off (sizes strlen m strs)))
  unfolding push_pointers
  push_pointers-Grows strs off s so_far out low high fits =
      done (
        write_pointers-Pointers strs 0 base off s.memory so_far out (omega arith) (omega arith)
          fits)
    where
      base : ℕ
      base = below (8 * length strs) s.stackptr

      done :
          Pointers s.memory
            (base + 8 * 0)
            off
            strs
            (write_pointers strlen strs 0 base off hi s.memory)
          → ((write_pointers strlen strs 0 base off hi s.memory).0
              ≡ off + total (sizes strlen m strs))
            × Grows s
                (record {
                  stackptr = base;
                  memory = (write_pointers strlen strs 0 base off hi s.memory).1;
                })
                (places hi off (sizes strlen m strs))
      done h = (
        h.offset,
        record {
          down = omega (arith, count);
          words =
              subst
                (λ x.
                  Words (write_pointers strlen strs 0 base off hi s.memory).1 x
                    (places hi off (sizes strlen m strs)))
                zero_off h.words;
          keeps =
              Keeps-widen base (base + 8 * 0) (base + 8 * 0 + 8 * length strs) s.stackptr s.memory
                (write_pointers strlen strs 0 base off hi s.memory).1 (omega arith) (omega arith)
                h.keeps;
        },
      )
        where
          zero_off : base + 8 * 0 ≡ base
          zero_off = omega arith

          count : length (places hi off (sizes strlen m strs)) ≡ length strs
          count = length-places-sizes hi off strlen m strs
