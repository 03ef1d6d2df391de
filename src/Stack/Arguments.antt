-- ===== src/Stack/Arguments.antt =====
-- The copies of the strings and the pointers to them, in com_sys_elf64_prepare_stack of
-- limine-c-template-x86-64/kernel/src/loader.c.
use willow_os.Prelude.{
  ℕ, suc, ◌+◌, ◌-◌, ◌^◌, ◌≤◌, ◌<◌, ◌≡◌, ◌∙◌, ap, refl, ◌⊎◌, inl, inr, List, [], ◌∷◌, length,
  length-map, map, arith,
}
use willow_os.Memory.{Memory, memcpy}
use willow_os.Memory.Disjoint.{Apart, memcpy-inside, memcpy-outside}
use willow_os.Stack.{Stack, below, copy_strings}
use willow_os.Stack.Words.{Keeps, Keeps-trans, Keeps-within, below_lem}

-- What is documented of strlen: it depends on the bytes of the string and its terminator alone.
abbrev pub IsLocal : (Memory → ℕ → ℕ) → Type 0
IsLocal strlen =
    (m m' : Memory) (s : ℕ)
    → ((j : ℕ) → j ≤ strlen m s → m' (s + j) ≡ m (s + j))
    → strlen m' s ≡ strlen m s

abbrev pub total : List ℕ → ℕ
total [] = 0
total (n ∷ ns) = n + total ns

-- Where copies of the given sizes stand, one below the other from `off` below the end.
abbrev pub places : (end off : ℕ) → List ℕ → List ℕ
places end off [] = []
places end off (n ∷ ns) = (end - (off + n)) ∷ places end (off + n) ns

length-places : (end off : ℕ) (ns : List ℕ) → length (places end off ns) ≡ length ns
length-places end off [] = refl
length-places end off (n ∷ ns) = ap suc (length-places end (off + n) ns)

-- The sizes of strings with their terminators.
abbrev pub sizes : (Memory → ℕ → ℕ) → Memory → List ℕ → List ℕ
sizes strlen m strs = map (λ s. strlen m s + 1) strs

pub length-places-sizes :
    (end off : ℕ) (strlen : Memory → ℕ → ℕ) (m : Memory) (strs : List ℕ)
    → length (places end off (sizes strlen m strs)) ≡ length strs
length-places-sizes end off strlen m strs =
    length-places end off (sizes strlen m strs) ∙ length-map strs (λ s. strlen m s + 1)

-- Each string of `m` stands at its place in `m'`, with its terminator.
abbrev pub Copies : (Memory → ℕ → ℕ) → (m m' : Memory) (strs at : List ℕ) → Type 0
Copies strlen m m' [] ps = Unit
Copies strlen m m' (s ∷ ss) [] = Unit
Copies strlen m m' (s ∷ ss) (p ∷ ps) =
    ((j : ℕ) → j ≤ strlen m s → m' (p + j) ≡ m (s + j)) × Copies strlen m m' ss ps

-- The strings lie outside [lo, hi).
abbrev pub Outside : (Memory → ℕ → ℕ) → Memory → (lo hi : ℕ) → List ℕ → Type 0
Outside strlen m lo hi [] = Unit
Outside strlen m lo hi (s ∷ ss) = ((s + strlen m s < lo) ⊎ (hi ≤ s)) × Outside strlen m lo hi ss

module _ (strlen : Memory → ℕ → ℕ) (local : IsLocal strlen) (m : Memory) (lo hi : ℕ)
    (small : hi < 2 ^ 64) where
  pub strlen-Keeps :
      (m' : Memory) (s : ℕ)
      → Keeps lo hi m m'
      → (s + strlen m s < lo) ⊎ (hi ≤ s)
      → strlen m' s ≡ strlen m s
  strlen-Keeps m' s keeps off = local m m' s (λ j below. keeps (s + j) (each j below off))
    where
      each :
          (j : ℕ) → j ≤ strlen m s → (s + strlen m s < lo) ⊎ (hi ≤ s) → (s + j < lo) ⊎ (hi ≤ s + j)
      each j below (inl h) = inl (omega arith)
      each j below (inr h) = inr (omega arith)

  -- The stack after one string has been copied.
  copied : (str : ℕ) (s : Stack) → Stack
  copied str s = record {
    stackptr = below (strlen s.memory str + 1) s.stackptr;
    memory =
        memcpy (below (strlen s.memory str + 1) s.stackptr) str (strlen s.memory str + 1) s.memory;
  }

  module _ (str off : ℕ) (s : Stack) (so_far : Keeps lo hi m s.memory)
      (away : (str + strlen m str < lo) ⊎ (hi ≤ str)) (at : s.stackptr + off ≡ hi)
      (fits : lo + (off + (strlen m str + 1)) ≤ hi) where
    same : strlen s.memory str ≡ strlen m str
    same = strlen-Keeps s.memory str so_far away

    copied-down : (copied str s).stackptr + (off + (strlen m str + 1)) ≡ hi
    unfolding copied
    copied-down = omega (arith, same, below_lem (strlen s.memory str + 1) s.stackptr)

    copied-Apart :
        Apart (copied str s).stackptr (strlen s.memory str + 1) str (strlen s.memory str + 1)
    copied-Apart = apart away
      where
        apart :
            (str + strlen m str < lo) ⊎ (hi ≤ str)
            → Apart (copied str s).stackptr (strlen s.memory str + 1) str (strlen s.memory str + 1)
        apart (inl h) = inr (omega (arith, same, copied-down))
        apart (inr h) = inl (omega (arith, same, copied-down))

    copied-Keeps : Keeps (copied str s).stackptr s.stackptr s.memory (copied str s).memory
    unfolding copied
    copied-Keeps a off_range =
        memcpy-outside (copied str s).stackptr str (strlen s.memory str + 1) a s.memory copied-Apart
          (apart off_range)
      where
        apart :
            (a < (copied str s).stackptr) ⊎ (s.stackptr ≤ a)
            → Apart (copied str s).stackptr (strlen s.memory str + 1) a 1
        apart (inl h) = inr (omega arith)
        apart (inr h) = inl (omega (arith, same, copied-down))

    copied-bytes :
        (j : ℕ)
        → j ≤ strlen m str
        → (copied str s).memory ((copied str s).stackptr + j) ≡ m (str + j)
    unfolding copied
    copied-bytes j below_end =
        memcpy-inside (copied str s).stackptr str (strlen s.memory str + 1) j s.memory copied-Apart
          (omega (arith, same))
        ∙ so_far (str + j) (each away)
      where
        each : (str + strlen m str < lo) ⊎ (hi ≤ str) → (str + j < lo) ⊎ (hi ≤ str + j)
        each (inl h) = inl (omega arith)
        each (inr h) = inr (omega arith)

  -- What holds of the stack after strings have been copied.
  pub record Strings (s s' : Stack) (off : ℕ) (strs : List ℕ) : Type 0 where
    pub down : s'.stackptr + (off + total (sizes strlen m strs)) ≡ hi
    pub keeps : Keeps s'.stackptr s.stackptr s.memory s'.memory
    pub copies : Copies strlen m s'.memory strs (places hi off (sizes strlen m strs))

  pub copy_strings-Strings :
      (strs : List ℕ) (off : ℕ) (s : Stack)
      → Keeps lo hi m s.memory
      → Outside strlen m lo hi strs
      → s.stackptr + off ≡ hi
      → lo + (off + total (sizes strlen m strs)) ≤ hi
      → Strings s (copy_strings strlen strs s) off strs
  unfolding copy_strings copied
  copy_strings-Strings [] off s so_far out at fits = record {
    down = omega arith;
    keeps = λ a h. refl;
    copies = tt;
  }
  copy_strings-Strings (str ∷ rest) off s so_far (away, out) at fits = onward (
      copy_strings-Strings rest (off + (strlen m str + 1)) (copied str s) so_far' out down
        (omega arith))
    where
      room : lo + (off + (strlen m str + 1)) ≤ hi
      room = omega arith

      down : (copied str s).stackptr + (off + (strlen m str + 1)) ≡ hi
      down = copied-down str off s so_far away at room

      so_far' : Keeps lo hi m (copied str s).memory
      so_far' =
          Keeps-within lo (copied str s).stackptr s.stackptr hi m s.memory (copied str s).memory
            (omega (arith, down)) (omega arith) so_far (copied-Keeps str off s so_far away at room)

      onward :
          Strings
            (copied str s)
            (copy_strings strlen rest (copied str s))
            (off + (strlen m str + 1))
            rest
          → Strings s (copy_strings strlen rest (copied str s)) off (str ∷ rest)
      onward h = record {
        down = omega (arith, h.down);
        keeps =
            Keeps-trans (copy_strings strlen rest (copied str s)).stackptr (copied str s).stackptr
              s.stackptr s.memory (copied str s).memory
              (copy_strings strlen rest (copied str s)).memory (omega (arith, h.down, down))
              (omega (arith, down)) (copied-Keeps str off s so_far away at room) h.keeps;
        copies = (
          λ j low. rw place (
              h.keeps ((copied str s).stackptr + j) (inr (omega arith))
              ∙ copied-bytes str off s so_far away at room j low),
          h.copies,
        );
      }
        where
          place : hi - (off + (strlen m str + 1)) ≡ (copied str s).stackptr
          place = omega (arith, down)
