-- ===== src/Tmpfs/Slots.antt =====
-- The array of entries of a directory: how many slots are taken, and the search for a free one.
use native.Mathlib.Nat.{add-zero, zero-add}
use willow_os.Prelude.{
  ℕ, zero, suc, ◌+◌, ◌<◌, ◌≡◌, refl, sym, Bool, true, false, some, List, [], ◌∷◌, ◌++◌, ◌==◌,
  if◌then◌else◌, arith, length, set, get_elem?, replicate, ap, ◌∙◌,
}
use willow_os.Tmpfs.{search_null, free_index}

abbrev pub taken : ℕ → ℕ
taken f = if f == 0 then 0 else 1

abbrev pub count_taken : List ℕ → ℕ
count_taken [] = 0
count_taken (f ∷ rest) = taken f + count_taken rest

pub count_taken-append : (fs gs : List ℕ) → count_taken (fs ++ gs) ≡ count_taken fs + count_taken gs
count_taken-append [] gs = omega arith
count_taken-append (f ∷ rest) gs = omega (arith, count_taken-append rest gs)

pub count_taken-replicate : (n : ℕ) → count_taken (replicate n 0) ≡ 0
count_taken-replicate zero = refl
count_taken-replicate (suc n) = omega (arith, count_taken-replicate n)

-- A write changes the count by what the slot held before and after.
pub count_taken-set :
    (fs : List ℕ) (i v old : ℕ)
    → get_elem? fs i ≡ some old
    → count_taken (set fs i v) + taken old ≡ count_taken fs + taken v
count_taken-set [] i v old h = absurd cc
count_taken-set (f ∷ rest) zero v old h = let same : f ≡ old = cc in omega (arith, ap taken same)
count_taken-set (f ∷ rest) (suc i) v old h = omega (arith, count_taken-set rest i v old h)

-- In an array with a slot left, the search comes to a slot that is NULL.
search_null-free :
    (i : ℕ) (fs : List ℕ)
    → count_taken fs < length fs
    → (k : ℕ) × (search_null i fs ≡ i + k) × (get_elem? fs k ≡ some 0)
unfolding search_null
search_null-free i [] h = absurd (omega arith)
search_null-free i (f ∷ rest) h = split (f == 0) refl (search_null-free (i + 1) rest)
  where
    split :
        (b : Bool)
        → (f == 0) ≡ b
        → (count_taken rest < length rest
            → (k : ℕ) × (search_null (i + 1) rest ≡ i + 1 + k) × (get_elem? rest k ≡ some 0))
        → (k : ℕ) × ((if b then i else search_null (i + 1) rest) ≡ i + k)
          × (get_elem? (f ∷ rest) k ≡ some 0)
    split true e ih = (0, sym (add-zero i), ap some (ground arith))
    split false e ih = let (k, at, null) = ih (ground arith) in (suc k, omega (arith, at), null)

pub free_index-free :
    (fs : List ℕ) → count_taken fs < length fs → get_elem? fs (free_index fs) ≡ some 0
unfolding free_index
free_index-free [] h = absurd (omega arith)
free_index-free (f ∷ rest) h = split (f == 0) refl (search_null-free 0 (f ∷ rest) h)
  where
    split :
        (b : Bool)
        → (f == 0) ≡ b
        → ((k : ℕ) × (search_null 0 (f ∷ rest) ≡ 0 + k) × (get_elem? (f ∷ rest) k ≡ some 0))
        → get_elem? (f ∷ rest) (if b then 0 else search_null 0 (f ∷ rest)) ≡ some 0
    split true e found = ap some (ground arith)
    split false e (k, at, null) = ap (get_elem? (f ∷ rest)) (at ∙ zero-add k) ∙ null
