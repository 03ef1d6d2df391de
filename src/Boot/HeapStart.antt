-- ===== src/Boot/HeapStart.antt =====
-- The heap that `init_heap` leaves.
use willow_os.Prelude.{
  ℕ, zero, suc, ◌+◌, ◌-◌, ◌≤◌, ◌<◌, ◌≡◌, refl, true, some, List, ◌∷◌, arith, ap, ◌∙◌, replicate,
  pred_suc,
}
use willow_os.Paging.{Space}
use willow_os.Heap.{HeapPage, kmalloc, chunk_address, heap_start_virt_defined}
use willow_os.Heap.Run.{IsHeap, free_run, first_fit, claim_at}
use willow_os.Heap.Alloc.{Outcome, kmalloc-Outcome}
use willow_os.Boot.{new_page, heap_loop, init_heap, next_node}

heap_loop-nodes :
    (k i pml4 node : ℕ) (s : Space) → (heap_loop k i pml4 node s).nodes ≡ replicate k new_page
unfolding heap_loop
heap_loop-nodes zero i pml4 node s = refl
heap_loop-nodes (suc k) i pml4 node s =
    ap (◌∷◌ new_page)
      (heap_loop-nodes k (i + 1) pml4 (next_node i pml4 node s).0 (next_node i pml4 node s).1)

init_heap-nodes :
    (n pml4 : ℕ) (s : Space) → (init_heap (suc n) pml4 s).nodes ≡ replicate (suc n) new_page
unfolding init_heap
init_heap-nodes n pml4 s =
    ap (◌∷◌ new_page)
      (heap_loop-nodes (suc n - 1) 1 pml4 _ _ ∙ ap (λ k. replicate k new_page) (pred_suc n))

free_run-fresh : (size n : ℕ) → size ≤ n → free_run size (replicate n new_page) ≡ true
free_run-fresh zero n h = refl
free_run-fresh (suc k) zero h = absurd (omega arith)
free_run-fresh (suc k) (suc n) h = free_run-fresh k n (omega arith)

IsHeap-fresh : (n : ℕ) → IsHeap (replicate n new_page)
IsHeap-fresh zero = tt
IsHeap-fresh (suc n) = (omega arith, IsHeap-fresh n)

-- On the heap that `init_heap` has set up with `chunks` chunks, the first `kmalloc`, of at least one
-- and at most all of them, returns the start of the heap and claims the first `size` chunks.
pub init_heap-kmalloc :
    (size chunks pml4 : ℕ) (s : Space)
    → 0 < size
    → size ≤ chunks
    → kmalloc size (init_heap chunks pml4 s).nodes
      ≡ (heap_start_virt_defined, claim_at 0 size (replicate chunks new_page))
init_heap-kmalloc size zero pml4 s pos fits = absurd (omega arith)
init_heap-kmalloc size (suc n) pml4 s pos fits =
    rw (init_heap-nodes n pml4 s)
      (first (kmalloc-Outcome size (replicate (suc n) new_page) pos (IsHeap-fresh (suc n))))
  where
    fresh : List HeapPage
    fresh = replicate (suc n) new_page

    fit : first_fit size fresh ≡ some 0
    fit = rw (free_run-fresh size (suc n) fits) refl

    first :
        Outcome size fresh (first_fit size fresh) (kmalloc size fresh)
        → kmalloc size fresh ≡ (heap_start_virt_defined, claim_at 0 size fresh)
    first outcome =
        let (i, gap, e) = rw fit at outcome in
        let start : i ≡ 0 = omega (arith, gap) in
        e ∙ ap (λ j. (chunk_address j, claim_at 0 size fresh)) start
