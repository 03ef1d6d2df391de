-- ===== src/Heap/Effects.antt =====
-- What a successful `kmalloc` changes, chunk by chunk, and the address that it returns.
use mathlib.Core.Option
use willow_os.Prelude.{
  ℕ, zero, suc, ◌+◌, ◌≤◌, ◌<◌, ◌≡◌, refl, Bool, true, false, Option, none, some, List, [], ◌∷◌,
  ◌&&◌, ltb, leb, if◌then◌else◌, arith, ◌∙◌, pred_suc, ap,
}
use willow_os.Heap.{HeapPage, chunk_address, kmalloc}
use willow_os.Heap.Run.{
  IsHeap, free_run, first_fit, short_runs, claim_at, status_at, count_used, status_at-claim,
  count_used-claim, IsHeap-claim,
}
use willow_os.Heap.Alloc.{Outcome, kmalloc-Outcome}

module _ (size : ℕ) (node : HeapPage) (rest : List HeapPage) where
  pub fit_zero : first_fit size (node ∷ rest) ≡ some 0 → free_run size (node ∷ rest) ≡ true
  fit_zero h = split (free_run size (node ∷ rest)) (first_fit size rest) h
    where
      split :
          (b : Bool) (o : Option ℕ) → (if b then some 0 else Option.map suc o) ≡ some 0 → b ≡ true
      split true o k = refl
      split false none k = cc
      split false (some p) k = ground arith

  fit_suc : (p : ℕ) → first_fit size (node ∷ rest) ≡ some (suc p) → first_fit size rest ≡ some p
  fit_suc p h = split (free_run size (node ∷ rest)) (first_fit size rest) h
    where
      split :
          (b : Bool) (o : Option ℕ)
          → (if b then some 0 else Option.map suc o) ≡ some (suc p)
          → o ≡ some p
      split true o k = ground arith
      split false none k = cc
      split false (some q) k = ground arith

pub status_at-free_run :
    (size : ℕ) (nodes : List HeapPage) (j : ℕ)
    → free_run size nodes ≡ true
    → j < size
    → status_at j nodes ≡ some 0
status_at-free_run zero nodes j h lt = absurd (omega arith)
status_at-free_run (suc n) [] j h lt = cc
status_at-free_run (suc n) (node ∷ rest) zero h lt = ground arith
status_at-free_run (suc n) (node ∷ rest) (suc j) h lt = ground (arith, status_at-free_run n rest j)

status_at-first_fit :
    (size position : ℕ) (nodes : List HeapPage) (j : ℕ)
    → first_fit size nodes ≡ some position
    → position ≤ j
    → j < position + size
    → status_at j nodes ≡ some 0
status_at-first_fit size position [] j h lo hi = cc
status_at-first_fit size zero (node ∷ rest) j h lo hi =
    status_at-free_run size (node ∷ rest) j (fit_zero size node rest h) (omega arith)
status_at-first_fit size (suc p) (node ∷ rest) zero h lo hi = absurd (omega arith)
status_at-first_fit size (suc p) (node ∷ rest) (suc j) h lo hi =
    status_at-first_fit size p rest j (fit_suc size node rest p h) (omega arith) (omega arith)

status_at-claim_at :
    (size position : ℕ) (nodes : List HeapPage) (j : ℕ)
    → first_fit size nodes ≡ some position
    → status_at j (claim_at position size nodes)
      ≡ (if leb position j && ltb j (position + size) then some 1 else status_at j nodes)
status_at-claim_at size position [] j h = cc
status_at-claim_at size zero (node ∷ rest) j h =
    ground (arith, status_at-claim j size (node ∷ rest), fit_zero size node rest h)
status_at-claim_at size (suc p) (node ∷ rest) zero h = ground arith
status_at-claim_at size (suc p) (node ∷ rest) (suc j) h =
    ground (arith, status_at-claim_at size p rest j, fit_suc size node rest p h)

count_used-claim_at :
    (size position : ℕ) (nodes : List HeapPage)
    → first_fit size nodes ≡ some position
    → count_used (claim_at position size nodes) ≡ count_used nodes + size
count_used-claim_at size position [] h = cc
count_used-claim_at size zero (node ∷ rest) h =
    count_used-claim size (node ∷ rest) (fit_zero size node rest h)
count_used-claim_at size (suc p) (node ∷ rest) h =
    omega (arith, count_used-claim_at size p rest (fit_suc size node rest p h))

IsHeap-claim_at :
    (size position : ℕ) (nodes : List HeapPage)
    → IsHeap nodes
    → IsHeap (claim_at position size nodes)
IsHeap-claim_at size zero nodes h = IsHeap-claim size nodes h
IsHeap-claim_at size (suc p) [] h = tt
IsHeap-claim_at size (suc p) (node ∷ rest) h = (h.0, IsHeap-claim_at size p rest h.1)

-- A chunk after `kmalloc` of `size` chunks, on a heap with a first run of `size` free nodes at
-- `position`: each chunk of the run was free before and is used after, and every other chunk keeps
-- its status.
pub kmalloc-status :
    (size position : ℕ) (nodes : List HeapPage) (j : ℕ)
    → 0 < size
    → IsHeap nodes
    → first_fit size nodes ≡ some position
    → ((if leb position j && ltb j (position + size) then status_at j nodes else some 0) ≡ some 0)
      × (status_at j (kmalloc size nodes).1
          ≡ (if leb position j && ltb j (position + size) then some 1 else status_at j nodes))
kmalloc-status size position nodes j pos heap fit =
    let (i, gap, e) = rw fit at (kmalloc-Outcome size nodes pos heap) in
    (
      ground (arith, status_at-first_fit size position nodes j fit),
      rw e (status_at-claim_at size position nodes j fit),
    )

-- After `kmalloc` the statuses are still 0 and 1, and the number of used chunks has grown by the
-- size of the block if there was room for it, and not at all if there was none.
pub kmalloc-IsHeap :
    (size : ℕ) (nodes : List HeapPage)
    → 0 < size
    → IsHeap nodes
    → IsHeap (kmalloc size nodes).1
      × (count_used (kmalloc size nodes).1 ≡ elim (first_fit size nodes) [
        | none ↦ count_used nodes
        | some _ ↦ count_used nodes + size
      ])
kmalloc-IsHeap size nodes pos heap =
    from (first_fit size nodes) refl (kmalloc-Outcome size nodes pos heap)
  where
    from :
        (o : Option ℕ)
        → first_fit size nodes ≡ o
        → Outcome size nodes o (kmalloc size nodes)
        → IsHeap (kmalloc size nodes).1
          × (count_used (kmalloc size nodes).1
              ≡ elim o [ none ↦ count_used nodes | some _ ↦ count_used nodes + size ])
    from none fit e = rw e (heap, refl)
    from (some position) fit (i, gap, e) =
        rw e (IsHeap-claim_at size position nodes heap, count_used-claim_at size position nodes fit)

-- Between a free chunk that a used one follows and a run of `size` ≥ 3 free chunks, `kmalloc`
-- claims the run but returns the address of the used chunk.
pub kmalloc_overlap :
    (size : ℕ) (a b : HeapPage) (rest : List HeapPage)
    → 3 ≤ size
    → IsHeap rest
    → a.status ≡ 0
    → b.status ≡ 1
    → free_run size rest ≡ true
    → kmalloc size (a ∷ b ∷ rest) ≡ (chunk_address 1, claim_at 2 size (a ∷ b ∷ rest))
kmalloc_overlap zero a b rest big heap ha hb run = absurd (omega arith)
kmalloc_overlap (suc zero) a b rest big heap ha hb run = absurd (omega arith)
kmalloc_overlap (suc (suc zero)) a b rest big heap ha hb run = absurd (omega arith)
kmalloc_overlap (suc (suc (suc n))) a b [] big heap ha hb run = cc
kmalloc_overlap (suc (suc (suc n))) a b (c ∷ rest) big heap ha hb run =
    let nodes = a ∷ b ∷ c ∷ rest in
    let (i, gap, e) =
      rw fit at (kmalloc-Outcome size nodes (omega arith) (omega arith, (omega arith, heap))) in
    let i_one : i ≡ 1 = omega (arith, lag) in
    e ∙ ap (λ k. (chunk_address k, claim_at 2 size nodes)) i_one
  where
    size : ℕ
    size = suc (suc (suc n))

    fit : first_fit size (a ∷ b ∷ c ∷ rest) ≡ some 2
    fit = ground arith

    lag : short_runs size (a ∷ b ∷ c ∷ rest) ≡ 1
    lag = ground (arith, pred_suc (suc (suc n)))
