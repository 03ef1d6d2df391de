-- ===== src/Frame/Freeing.antt =====
-- What `free_frame` does with a frame, and when its loop does not end.
use mathlib.Core.Bool.{false≢true}
use willow_os.Prelude.{
  ℕ, zero, suc, ◌+◌, ◌-◌, ◌/◌, ◌%◌, ◌^◌, ◌≤◌, ◌<◌, ◌≡◌, refl, Bool, true, false, List, [], ◌∷◌,
  ◌==◌, ◌&&◌, ◌||◌, not, ltb, leb, arith, Bool-cases, inl, inr, length,
}
use willow_os.Frame.{
  Region, set_bitmap, Release, freed, asserted, spinning, release_behind, frame_index, free_loop,
  free_frame,
}
use willow_os.Frame.Free.{is_frame_of, is_free_in, is_free, InOrder}

-- The used frames of a region, and of the list.
abbrev pub is_used_in : Region → ℕ → Bool
is_used_in r a = is_frame_of r a && not (r.frame_bitmap ((a - r.base) / 4096) == 0)

abbrev pub is_used : List Region → ℕ → Bool
is_used [] a = false
is_used (r ∷ rest) a = is_used_in r a || is_used rest a

-- Each region begins at a page boundary.
abbrev pub Aligned : List Region → Type 0
Aligned [] = Unit {0}
Aligned (r ∷ rest) = (r.base % 4096 ≡ 0) × Aligned rest

-- The outcome of `free_frame` on a used frame: it returns, the frame is not used any more, and no
-- other frame has changed.
abbrev pub Frees : ℕ → List Region → Release → Type 0
Frees a rs asserted = ⊥
Frees a rs spinning = ⊥
Frees a rs (freed rs') =
    (is_used rs' a ≡ false)
    × ((x : ℕ) → (x == a) ≡ false → is_used rs' x ≡ is_used rs x)
    × ((x : ℕ) → (x == a) ≡ false → is_free rs' x ≡ is_free rs x)

is_used_below :
    (gap low : ℕ) (rs : List Region) (a : ℕ) → InOrder gap low rs → a < low → is_used rs a ≡ false
is_used_below gap low [] a order h = refl
is_used_below gap low (r ∷ rest) a order h =
    ground (arith, is_used_below gap (r.base + r.length + gap) rest a order.1)

frame_index-eq : (a base : ℕ) → base ≤ a → a < 2 ^ 64 → frame_index a base ≡ (a - base) / 4096
frame_index-eq a base h small = omega arith

-- Clearing the bit of a used frame of `r`.
module _ (r : Region) (a : ℕ) (small : a < 2 ^ 64) (used : is_used_in r a ≡ true) where
  abbrev cleared : Region
  cleared = set_bitmap r (frame_index a r.base) 0

  index : frame_index a r.base ≡ (a - r.base) / 4096
  index = frame_index-eq a r.base (ground arith) small

  cleared_used : is_used_in cleared a ≡ false
  cleared_used = ground (arith, index)

  cleared_used_other : (x : ℕ) → (x == a) ≡ false → is_used_in cleared x ≡ is_used_in r x
  cleared_used_other x ne = ground (arith, index)

  cleared_free_other : (x : ℕ) → (x == a) ≡ false → is_free_in cleared x ≡ is_free_in r x
  cleared_free_other x ne = ground (arith, index)

  Frees-cleared :
      (rest : List Region) → is_used rest a ≡ false → Frees a (r ∷ rest) (freed (cleared ∷ rest))
  Frees-cleared rest none_later = (
    ground (arith, cleared_used),
    λ x ne. ground (arith, cleared_used_other x ne),
    λ x ne. ground (arith, cleared_free_other x ne),
  )

Frees-behind :
    (a : ℕ) (r : Region) (rest : List Region) (o : Release)
    → is_used_in r a ≡ false
    → Frees a rest o
    → Frees a (r ∷ rest) (release_behind r o)
Frees-behind a r rest (freed rest') out (gone, used, free) =
    (ground arith, λ x ne. ground (arith, used x ne), λ x ne. ground (arith, free x ne))
Frees-behind a r rest asserted out h = h
Frees-behind a r rest spinning out h = h

free_loop-Frees :
    (fuel low a : ℕ) (rs : List Region)
    → length rs ≤ fuel
    → a < 2 ^ 64
    → InOrder 1 low rs
    → is_used rs a ≡ true
    → Frees a rs (free_loop fuel a rs)
unfolding free_loop
free_loop-Frees zero low a [] room small order used = absurd (false≢true used)
free_loop-Frees zero low a (r ∷ rest) room small order used = absurd (omega arith)
free_loop-Frees (suc f) low a [] room small order used = absurd (false≢true used)
free_loop-Frees (suc f) low a (r ∷ []) room small order used =
    Frees-cleared r a small (ground arith) [] refl
free_loop-Frees (suc f) low a (r ∷ next ∷ rest) room small order used =
    elim (Bool-cases (is_used_in r a)) [
      | inl here ↦
          rw (in_range here, still_used here)
            (Frees-cleared r a small here (next ∷ rest)
              (is_used_below 1 (r.base + r.length + 1) (next ∷ rest) a order.1 (ground arith)))
      | inr later ↦
          rw (past_range later, past_end later)
            (Frees-behind a r (next ∷ rest) (free_loop f a (next ∷ rest)) later (
              free_loop-Frees f (r.base + r.length + 1) a (next ∷ rest) (omega arith) small order.1
                (ground arith)))
    ]
  where
    in_range : is_used_in r a ≡ true → (leb r.base a && ltb a next.base) ≡ true
    in_range here = ground arith

    still_used : is_used_in r a ≡ true → (r.frame_bitmap (frame_index a r.base) == 0) ≡ false
    still_used here = ground (arith, index r a small here)

    beyond : is_used_in r a ≡ false → next.base ≤ a
    beyond later =
        ground (arith, is_used_below 1 next.base (next ∷ rest) a (omega arith, order.1.1))

    past_range : is_used_in r a ≡ false → (leb r.base a && ltb a next.base) ≡ false
    past_range later = ground (arith, beyond later)

    past_end : is_used_in r a ≡ false → ltb (r.base + r.length) a ≡ true
    past_end later = ground (arith, beyond later)

is_used-Aligned : (low a : ℕ) (rs : List Region) → is_used rs a ≡ true → Aligned rs → a % 4096 ≡ 0
is_used-Aligned low a [] used h = absurd (false≢true used)
is_used-Aligned low a (r ∷ rest) used h = ground (arith, is_used-Aligned low a rest)

-- With at least one byte between two regions, each based at a page boundary, `free_frame` of a
-- used frame returns within as many rounds as there are regions; the frame is not used any more
-- and no other frame has changed.
pub free_frame-Frees :
    (fuel low a : ℕ) (rs : List Region)
    → length rs ≤ fuel
    → a < 2 ^ 64
    → InOrder 1 low rs
    → Aligned rs
    → is_used rs a ≡ true
    → Frees a rs (free_frame fuel a rs)
unfolding free_frame
free_frame-Frees fuel low a rs room small order aligned used =
    rw (is_used-Aligned low a rs used aligned) (free_loop-Frees fuel low a rs room small order used)
