-- ===== src/Stack/Words.antt =====
-- Words on the stack that com_sys_elf64_prepare_stack of limine-c-template-x86-64/kernel/src/loader.c
-- prepares.
use willow_os.Prelude.{
  ℕ, zero, suc, ◌+◌, ◌*◌, ◌/◌, ◌%◌, ◌^◌, ◌≤◌, ◌<◌, ◌≡◌, ◌∙◌, refl, sym, ◌⊎◌, inl, inr, List, [],
  ◌∷◌, ◌++◌, length, length-append, arith,
}
use willow_os.Memory.{Memory, store}
use willow_os.Loader.{word}
use willow_os.Stack.{Stack, below, store_word, push}

-- Nothing outside [lo, hi) has changed.
abbrev pub Keeps : (lo hi : ℕ) (m m' : Memory) → Type 0
Keeps lo hi m m' = (a : ℕ) → (a < lo) ⊎ (hi ≤ a) → m' a ≡ m a

-- The words from `a` on.
abbrev pub Words : Memory → (a : ℕ) → List ℕ → Type 0
Words m a [] = Unit
Words m a (w ∷ ws) = (word 8 m a ≡ w) × Words m (a + 8) ws

pub store_word-Keeps : (n v a : ℕ) (m : Memory) → Keeps a (a + n) m (store_word n v a m)
unfolding store_word
store_word-Keeps zero v a m b off = refl
store_word-Keeps (suc n) v a m b off =
    store_word-Keeps n (v / 256) (a + 1) (store m a (v % 256)) b (onward off) ∙ here off
  where
    onward : (b < a) ⊎ (a + suc n ≤ b) → (b < a + 1) ⊎ (a + 1 + n ≤ b)
    onward (inl h) = inl (omega arith)
    onward (inr h) = inr (omega arith)

    here : (b < a) ⊎ (a + suc n ≤ b) → store m a (v % 256) b ≡ m b
    here (inl h) = ground arith
    here (inr h) = ground arith

pub word-store_word : (n v a : ℕ) (m : Memory) → v < 256 ^ n → word n (store_word n v a m) a ≡ v
unfolding word store_word
word-store_word zero v a m small = omega (arith, small)
word-store_word (suc n) v a m small =
    let rest = word-store_word n (v / 256) (a + 1) (store m a (v % 256)) (omega (arith, small)) in
    let first = store_word-Keeps n (v / 256) (a + 1) (store m a (v % 256)) a (inl (omega arith)) in
    let byte : store m a (v % 256) a ≡ v % 256 = ground arith in omega (arith, rest, first, byte)

pub word-Keeps :
    (n lo hi a : ℕ) (m m' : Memory)
    → Keeps lo hi m m'
    → (a + n ≤ lo) ⊎ (hi ≤ a)
    → word n m' a ≡ word n m a
unfolding word
word-Keeps zero lo hi a m m' keeps off = refl
word-Keeps (suc n) lo hi a m m' keeps off =
    λ i. keeps a (here off) i + 256 * word-Keeps n lo hi (a + 1) m m' keeps (onward off) i
  where
    here : (a + suc n ≤ lo) ⊎ (hi ≤ a) → (a < lo) ⊎ (hi ≤ a)
    here (inl h) = inl (omega arith)
    here (inr h) = inr h

    onward : (a + suc n ≤ lo) ⊎ (hi ≤ a) → (a + 1 + n ≤ lo) ⊎ (hi ≤ a + 1)
    onward (inl h) = inl (omega arith)
    onward (inr h) = inr (omega arith)

-- Words above what changes stay.
pub Words-Keeps :
    (lo hi a : ℕ) (m m' : Memory) (ws : List ℕ)
    → Keeps lo hi m m'
    → hi ≤ a
    → Words m a ws
    → Words m' a ws
Words-Keeps lo hi a m m' [] keeps above h = tt
Words-Keeps lo hi a m m' (w ∷ ws) keeps above (e, h) = (
  word-Keeps 8 lo hi a m m' keeps (inr above) ∙ e,
  Words-Keeps lo hi (a + 8) m m' ws keeps (omega arith) h,
)

pub Keeps-trans :
    (lo mid hi : ℕ) (m m' m'' : Memory)
    → lo ≤ mid
    → mid ≤ hi
    → Keeps mid hi m m'
    → Keeps lo mid m' m''
    → Keeps lo hi m m''
Keeps-trans lo mid hi m m' m'' low high first second a (inl h) =
    second a (inl h) ∙ first a (inl (omega arith))
Keeps-trans lo mid hi m m' m'' low high first second a (inr h) =
    second a (inr (omega arith)) ∙ first a (inr h)

Words-append :
    (m : Memory) (a b : ℕ) (xs ys : List ℕ)
    → b ≡ a + 8 * length xs
    → Words m a xs
    → Words m b ys
    → Words m a (xs ++ ys)
Words-append m a b [] ys at h k = let e : b ≡ a = omega arith in rw (← e) k
Words-append m a b (x ∷ xs) ys at (w, h) k = (w, Words-append m (a + 8) b xs ys (omega arith) h k)

-- The stack has grown by words: they stand from the stack pointer on, and nothing else has changed.
pub record Grows (s s' : Stack) (ws : List ℕ) : Type 0 where
  pub down : s'.stackptr + 8 * length ws ≡ s.stackptr
  pub words : Words s'.memory s'.stackptr ws
  pub keeps : Keeps s'.stackptr s.stackptr s.memory s'.memory

pub Grows-trans :
    (s s' s'' : Stack) (ws vs : List ℕ) → Grows s s' ws → Grows s' s'' vs → Grows s s'' (vs ++ ws)
Grows-trans s s' s'' ws vs g h = record {
  down = omega (arith, g.down, h.down, length-append vs ws);
  words = Words-append s''.memory s''.stackptr s'.stackptr vs ws (sym h.down) h.words (
      Words-Keeps s''.stackptr s'.stackptr s'.stackptr s'.memory s''.memory ws h.keeps (omega arith)
        g.words);
  keeps =
      Keeps-trans s''.stackptr s'.stackptr s.stackptr s.memory s'.memory s''.memory
        (omega (arith, h.down)) (omega (arith, g.down)) g.keeps h.keeps;
}

pub below_lem : (n p : ℕ) → n ≤ p → p < 2 ^ 64 → below n p + n ≡ p
below_lem n p fits small = omega arith

pub push-Grows :
    (x : ℕ) (s : Stack)
    → x < 2 ^ 64
    → 8 ≤ s.stackptr
    → s.stackptr < 2 ^ 64
    → Grows s (push x s) (x ∷ [])
unfolding push
push-Grows x s value fits small = record {
  down = omega arith;
  words = (word-store_word 8 x (below 8 s.stackptr) s.memory value, tt);
  keeps = λ a off. store_word-Keeps 8 x (below 8 s.stackptr) s.memory a (around a off);
}
  where
    around :
        (a : ℕ)
        → (a < below 8 s.stackptr) ⊎ (s.stackptr ≤ a)
        → (a < below 8 s.stackptr) ⊎ (below 8 s.stackptr + 8 ≤ a)
    around a (inl h) = inl h
    around a (inr h) = inr (omega arith)

-- Changes within a range.
pub Keeps-within :
    (lo lo' hi' hi : ℕ) (m m' m'' : Memory)
    → lo ≤ lo'
    → hi' ≤ hi
    → Keeps lo hi m m'
    → Keeps lo' hi' m' m''
    → Keeps lo hi m m''
Keeps-within lo lo' hi' hi m m' m'' low high first second a (inl h) =
    second a (inl (omega arith)) ∙ first a (inl h)
Keeps-within lo lo' hi' hi m m' m'' low high first second a (inr h) =
    second a (inr (omega arith)) ∙ first a (inr h)

pub Keeps-widen :
    (lo lo' hi' hi : ℕ) (m m' : Memory)
    → lo ≤ lo'
    → hi' ≤ hi
    → Keeps lo' hi' m m'
    → Keeps lo hi m m'
Keeps-widen lo lo' hi' hi m m' low high keeps a (inl h) = keeps a (inl (omega arith))
Keeps-widen lo lo' hi' hi m m' low high keeps a (inr h) = keeps a (inr (omega arith))
