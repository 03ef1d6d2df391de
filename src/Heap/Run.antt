-- ===== src/Heap/Run.antt =====
-- What `kmalloc` looks for, described without its loops: the first run of free nodes.
use mathlib.Core.Option
use willow_os.Prelude.{
  ℕ, zero, suc, ◌+◌, ◌-◌, ◌≤◌, ◌≡◌, refl, Bool, true, false, Option, none, some, List, [], ◌∷◌,
  ◌==◌, ◌&&◌, not, ltb, if◌then◌else◌, arith, ◌∙◌,
}
use willow_os.Heap.{HeapPage, mark_used, claim, set_alloc_length}

-- Each status is 0 or 1.
abbrev pub IsHeap : List HeapPage → Type 0
IsHeap [] = Unit {0}
IsHeap (node ∷ rest) = (node.status ≤ 1) × IsHeap rest

-- The first `size` nodes exist and are free.
abbrev pub free_run : ℕ → List HeapPage → Bool
free_run zero nodes = true
free_run (suc n) [] = false
free_run (suc n) (node ∷ rest) = node.status == 0 && free_run n rest

-- The least position at which `size` nodes in a row are free.
abbrev pub first_fit : ℕ → List HeapPage → Option ℕ
first_fit size [] = none
first_fit size (node ∷ rest) =
    let later = Option.map suc (first_fit size rest) in
    if free_run size (node ∷ rest) then some 0 else later

-- The free nodes before the first fit from which fewer than `size - 1` nodes in a row are free.
abbrev pub short_runs : ℕ → List HeapPage → ℕ
short_runs size [] = 0
short_runs size (node ∷ rest) =
    let here = if node.status == 0 && not (free_run (size - 1) (node ∷ rest)) then 1 else 0 in
    let later = here + short_runs size rest in if free_run size (node ∷ rest) then 0 else later

-- The list with the block of `size` nodes at a position claimed.
abbrev pub claim_at : ℕ → ℕ → List HeapPage → List HeapPage
claim_at zero size nodes = claim size nodes
claim_at (suc position) size [] = []
claim_at (suc position) size (node ∷ rest) = node ∷ claim_at position size rest

abbrev pub status_at : ℕ → List HeapPage → Option ℕ
status_at i [] = none
status_at zero (node ∷ rest) = some node.status
status_at (suc i) (node ∷ rest) = status_at i rest

abbrev pub count_used : List HeapPage → ℕ
count_used [] = 0
count_used (node ∷ rest) = node.status + count_used rest

status_at-mark_used :
    (i size : ℕ) (nodes : List HeapPage)
    → free_run size nodes ≡ true
    → status_at i (mark_used size nodes) ≡ (if ltb i size then some 1 else status_at i nodes)
unfolding mark_used
status_at-mark_used i zero nodes h = ground arith
status_at-mark_used i (suc n) [] h = ground arith
status_at-mark_used zero (suc n) (node ∷ rest) h = ground arith
status_at-mark_used (suc i) (suc n) (node ∷ rest) h = ground (arith, status_at-mark_used i n rest)

status_at-set_alloc_length :
    (i size : ℕ) (nodes : List HeapPage)
    → status_at i (set_alloc_length size nodes) ≡ status_at i nodes
unfolding set_alloc_length
status_at-set_alloc_length i size [] = refl
status_at-set_alloc_length zero size (node ∷ rest) = refl
status_at-set_alloc_length (suc i) size (node ∷ rest) = refl

pub status_at-claim :
    (i size : ℕ) (nodes : List HeapPage)
    → free_run size nodes ≡ true
    → status_at i (claim size nodes) ≡ (if ltb i size then some 1 else status_at i nodes)
unfolding claim
status_at-claim i size nodes h =
    rw (status_at-set_alloc_length i size (mark_used size nodes))
      (status_at-mark_used i size nodes h)

count_used-set_alloc_length :
    (size : ℕ) (nodes : List HeapPage) → count_used (set_alloc_length size nodes) ≡ count_used nodes
unfolding set_alloc_length
count_used-set_alloc_length size [] = refl
count_used-set_alloc_length size (node ∷ rest) = refl

count_used-mark_used :
    (size : ℕ) (nodes : List HeapPage)
    → free_run size nodes ≡ true
    → count_used (mark_used size nodes) ≡ count_used nodes + size
unfolding mark_used
count_used-mark_used zero nodes h = omega arith
count_used-mark_used (suc n) [] h = ground arith
count_used-mark_used (suc n) (node ∷ rest) h = ground (arith, count_used-mark_used n rest)

pub count_used-claim :
    (size : ℕ) (nodes : List HeapPage)
    → free_run size nodes ≡ true
    → count_used (claim size nodes) ≡ count_used nodes + size
unfolding claim
count_used-claim size nodes h =
    count_used-set_alloc_length size (mark_used size nodes) ∙ count_used-mark_used size nodes h

IsHeap-mark_used : (size : ℕ) (nodes : List HeapPage) → IsHeap nodes → IsHeap (mark_used size nodes)
unfolding mark_used
IsHeap-mark_used zero nodes h = h
IsHeap-mark_used (suc n) [] h = tt
IsHeap-mark_used (suc n) (node ∷ rest) h = (omega arith, IsHeap-mark_used n rest h.1)

IsHeap-set_alloc_length :
    (size : ℕ) (nodes : List HeapPage) → IsHeap nodes → IsHeap (set_alloc_length size nodes)
unfolding set_alloc_length
IsHeap-set_alloc_length size [] h = tt
IsHeap-set_alloc_length size (node ∷ rest) h = h

pub IsHeap-claim : (size : ℕ) (nodes : List HeapPage) → IsHeap nodes → IsHeap (claim size nodes)
unfolding claim
IsHeap-claim size nodes h =
    IsHeap-set_alloc_length size (mark_used size nodes) (IsHeap-mark_used size nodes h)
