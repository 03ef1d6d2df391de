-- ===== src/Heap/Free.antt =====
-- What `kfree` does: which chunks it frees, and what a block keeps after `kmalloc` and `kfree`.
use native.Mathlib.Decide.{dec_lt}
use willow_os.Prelude.{
  ℕ, zero, suc, ◌+◌, ◌-◌, ◌^◌, ◌≤◌, ◌<◌, ◌≡◌, ◌≢◌, refl, true, some, List, [], ◌∷◌, ◌&&◌, ltb, leb,
  if◌then◌else◌, arith, ◌∙◌, length, ap,
}
use willow_os.Heap.{
  HeapPage, chunk_address, chunk_index, claim, mark_used, set_alloc_length, kmalloc, release,
  kfree_at, kfree, alloc_length_at,
}
use willow_os.Heap.Run.{IsHeap, free_run, first_fit, status_at, status_at-claim}
use willow_os.Heap.Alloc.{kmalloc-Outcome}
use willow_os.Heap.Effects.{fit_zero, status_at-free_run}

-- Statuses after the `count` chunks from `from` on have been freed.
abbrev pub Freed : (from count : ℕ) → List HeapPage → List HeapPage → Type 0
Freed from count nodes nodes' =
    (j : ℕ)
    → status_at j nodes'
      ≡ (if leb from j && ltb j (from + count) then some 0 else status_at j nodes)

chunk_index-chunk_address : (i : ℕ) → i < 2 ^ 20 → chunk_index (chunk_address i) ≡ i
chunk_index-chunk_address i h = omega arith

release-Freed :
    (count : ℕ) (nodes : List HeapPage)
    → count ≤ length nodes
    → (nodes' : List HeapPage) × (release count nodes ≡ some nodes') × Freed 0 count nodes nodes'
unfolding release
release-Freed zero nodes h = (nodes, refl, λ j. ground arith)
release-Freed (suc n) [] h = absurd (omega arith)
release-Freed (suc n) (node ∷ rest) h =
    let (rest', e, freed) = release-Freed n rest (omega arith) in
    (record node { status = 0 } ∷ rest', rw e, cons rest' freed)
  where
    cons :
        (rest' : List HeapPage)
        → Freed 0 n rest rest'
        → Freed 0 (suc n) (node ∷ rest) (record node { status = 0 } ∷ rest')
    cons rest' freed zero = ground arith
    cons rest' freed (suc j) = ground (arith, freed j)

kfree_at-Freed :
    (p count : ℕ) (nodes : List HeapPage)
    → alloc_length_at p nodes ≡ some count
    → p + (count - 1) ≤ length nodes
    → (nodes' : List HeapPage) × (kfree_at p nodes ≡ some nodes') × Freed p (count - 1) nodes nodes'
unfolding kfree_at
kfree_at-Freed p count [] e room = let impossible : ⊥ = cc in absurd impossible
kfree_at-Freed zero count (node ∷ rest) e room =
    let same : node.alloc_length ≡ count = ground arith in
    let (nodes', done, freed) =
      release-Freed (count - 1) (record node { alloc_length = 0 } ∷ rest) (omega arith) in
    (
      nodes',
      ap (λ k. release (k - 1) (record node { alloc_length = 0 } ∷ rest)) same ∙ done,
      head nodes' freed,
    )
  where
    head :
        (nodes' : List HeapPage)
        → Freed 0 (count - 1) (record node { alloc_length = 0 } ∷ rest) nodes'
        → Freed 0 (count - 1) (node ∷ rest) nodes'
    head nodes' freed zero = freed 0
    head nodes' freed (suc j) = freed (suc j)
kfree_at-Freed (suc p) count (node ∷ rest) e room =
    let (rest', done, freed) = kfree_at-Freed p count rest e (omega arith) in
    (node ∷ rest', rw done, cons rest' freed)
  where
    cons :
        (rest' : List HeapPage)
        → Freed p (count - 1) rest rest'
        → Freed (suc p) (count - 1) (node ∷ rest) (node ∷ rest')
    cons rest' freed zero = ground arith
    cons rest' freed (suc j) = ground (arith, freed j)

-- `kfree` of the address of chunk `i` reads the recorded length of chunk `i - 1` (chunk 0 for
-- `i` = 0); with that length `count` and enough nodes it does not fault, frees the `count - 1`
-- chunks from that one on, and every other chunk keeps its status.
pub kfree-Freed :
    (i count : ℕ) (nodes : List HeapPage)
    → i < 2 ^ 20
    → alloc_length_at (i - 1) nodes ≡ some count
    → (i - 1) + (count - 1) ≤ length nodes
    → (nodes' : List HeapPage) × (kfree (chunk_address i) nodes ≡ some nodes')
      × Freed (i - 1) (count - 1) nodes nodes'
unfolding kfree
kfree-Freed i count nodes small e room =
    rw (chunk_index-chunk_address i small) (kfree_at-Freed (i - 1) count nodes e room)

length-mark_used : (n : ℕ) (nodes : List HeapPage) → length (mark_used n nodes) ≡ length nodes
unfolding mark_used
length-mark_used zero nodes = refl
length-mark_used (suc n) [] = refl
length-mark_used (suc n) (node ∷ rest) = ap suc (length-mark_used n rest)

length-claim : (n : ℕ) (nodes : List HeapPage) → length (claim n nodes) ≡ length nodes
unfolding claim set_alloc_length
length-claim n nodes = set_length (mark_used n nodes) ∙ length-mark_used n nodes
  where
    set_length : (ns : List HeapPage) → length (set_alloc_length n ns) ≡ length ns
    set_length [] = refl
    set_length (node ∷ rest) = refl

alloc_length_at-claim :
    (n : ℕ) (nodes : List HeapPage) → 0 < length nodes → alloc_length_at 0 (claim n nodes) ≡ some n
unfolding claim set_alloc_length mark_used
alloc_length_at-claim n [] h = absurd (omega arith)
alloc_length_at-claim zero (node ∷ rest) h = refl
alloc_length_at-claim (suc n) (node ∷ rest) h = refl

free_run-length : (n : ℕ) (nodes : List HeapPage) → free_run n nodes ≡ true → n ≤ length nodes
free_run-length zero nodes h = omega arith
free_run-length (suc n) [] h = cc
free_run-length (suc n) (node ∷ rest) h = ground (arith, free_run-length n rest)

first_fit_zero :
    (size : ℕ) (nodes : List HeapPage)
    → first_fit size nodes ≡ some 0
    → (free_run size nodes ≡ true) × (size ≤ length nodes)
first_fit_zero size [] h = let impossible : ⊥ = cc in absurd impossible
first_fit_zero size (node ∷ rest) h =
    let run = fit_zero size node rest h in (run, free_run-length size (node ∷ rest) run)

kmalloc_head :
    (size : ℕ) (nodes : List HeapPage)
    → 0 < size
    → IsHeap nodes
    → first_fit size nodes ≡ some 0
    → kmalloc size nodes ≡ (chunk_address 0, claim size nodes)
kmalloc_head size nodes pos heap fit =
    let (i, gap, e) = rw fit at (kmalloc-Outcome size nodes pos heap) in
    let start : i ≡ 0 = omega arith in e ∙ ap (λ k. (chunk_address k, claim size nodes)) start

-- Statuses after a block of free chunks at the start is claimed and all but its last is freed.
module _ (size : ℕ) (nodes nodes' : List HeapPage) (pos : 0 < size)
    (run : free_run size nodes ≡ true) (freed : Freed 0 (size - 1) (claim size nodes) nodes') where
  last_stays : status_at (size - 1) nodes' ≡ some 1
  last_stays = ground (arith, freed (size - 1), status_at-claim (size - 1) size nodes run)

  others_restored : (j : ℕ) → j ≢ size - 1 → status_at j nodes' ≡ status_at j nodes
  others_restored j other = elim (dec_lt j size) [
    | yes below ↦ ground (
      arith,
      freed j,
      status_at-claim j size nodes run,
      status_at-free_run size nodes j run below,
    )
    | no above ↦ ground (arith, freed j, status_at-claim j size nodes run)
  ]

-- After `kmalloc` of `size` chunks at the start of the heap, `kfree` of the address that it
-- returned frees all of the block but its last chunk, which stays used.
pub kmalloc-kfree_leak :
    (size : ℕ) (nodes : List HeapPage)
    → 0 < size
    → IsHeap nodes
    → first_fit size nodes ≡ some 0
    → (nodes' : List HeapPage) × (kfree (kmalloc size nodes).0 (kmalloc size nodes).1 ≡ some nodes')
      × (status_at (size - 1) nodes' ≡ some 1)
      × ((j : ℕ) → j ≢ size - 1 → status_at j nodes' ≡ status_at j nodes)
kmalloc-kfree_leak size nodes pos heap fit =
    let head = kmalloc_head size nodes pos heap fit in
    let (run, room) = first_fit_zero size nodes fit in
    let (nodes', done, freed) =
      kfree-Freed 0 size (claim size nodes) (omega arith)
        (alloc_length_at-claim size nodes (omega arith)) (omega (arith, length-claim size nodes)) in
    (
      nodes',
      rw head done,
      last_stays size nodes nodes' pos run freed,
      others_restored size nodes nodes' pos run freed,
    )
