-- ===== src/Heap/Alloc.antt =====
-- What `kmalloc` does on a heap whose statuses are 0 and 1, against the first run of free nodes.
use mathlib.Core.Option
use willow_os.Prelude.{
  ℕ, zero, suc, ◌+◌, ◌≤◌, ◌<◌, ◌≡◌, refl, Bool, true, false, Option, none, some, List, [], ◌∷◌,
  length, ◌==◌, ◌&&◌, not, ◌-◌, if◌then◌else◌, arith, pred_suc, suc-beq_zero,
}
use willow_os.Heap.{
  HeapPage, Probe, full, taken, stopped, probe_loop, is_free, claim, behind, after_probe,
  kmalloc_loop, returned, chunk_address, kmalloc,
}
use willow_os.Heap.Run.{IsHeap, free_run, first_fit, short_runs, claim_at}

-- What the end of the probing loop says of the nodes from `probe` on, after `n` rounds at most.
abbrev Says : ℕ → List HeapPage → Probe → Type 0
Says n nodes full = length nodes ≤ n
Says n nodes taken = free_run n nodes ≡ false
Says n nodes (stopped probe) = (free_run n nodes ≡ true) × (free_run (suc n) nodes ≡ is_free probe)

Says-onward :
    (n : ℕ) (node next : HeapPage) (rest : List HeapPage) (probe : Probe)
    → node.status ≤ 1
    → Says n (next ∷ rest) probe
    → Says (suc n) (node ∷ next ∷ rest) (if node.status == 1 then taken else probe)
Says-onward n node next rest full small h = ground arith
Says-onward n node next rest taken small h = ground arith
Says-onward n node next rest (stopped probe) small h = ground arith

probe_loop-Says :
    (n : ℕ) (node : HeapPage) (rest : List HeapPage)
    → IsHeap (node ∷ rest)
    → Says n (node ∷ rest) (probe_loop n (node ∷ rest))
unfolding probe_loop
probe_loop-Says zero node rest h = ground arith
probe_loop-Says (suc n) node [] h = omega arith
probe_loop-Says (suc n) node (next ∷ rest) h =
    Says-onward n node next rest (probe_loop n (next ∷ rest)) h.0 (probe_loop-Says n next rest h.1)

free_run_short :
    (size : ℕ) (nodes : List HeapPage) → length nodes < size → free_run size nodes ≡ false
free_run_short zero nodes h = absurd (omega arith)
free_run_short (suc n) [] h = refl
free_run_short (suc n) (node ∷ rest) h = ground (arith, free_run_short n rest)

first_fit_short :
    (size : ℕ) (nodes : List HeapPage) → length nodes < size → first_fit size nodes ≡ none
first_fit_short size [] h = refl
first_fit_short size (node ∷ rest) h =
    rw (free_run_short size (node ∷ rest) h, first_fit_short size rest (omega arith))

free_run_weaken :
    (n : ℕ) (nodes : List HeapPage) → free_run n nodes ≡ false → free_run (suc n) nodes ≡ false
free_run_weaken zero nodes h = cc
free_run_weaken (suc n) [] h = refl
free_run_weaken (suc n) (node ∷ rest) h = ground (arith, free_run_weaken n rest)

-- The loop claims the block at `fit`; the index that it gives lags behind by `lag`.
abbrev Claims :
    (size index : ℕ) → List HeapPage → Option ℕ → ℕ → Option (ℕ × List HeapPage) → Type 0
Claims size index nodes none lag r = r ≡ none
Claims size index nodes (some position) lag r =
    (i : ℕ) × (i + lag ≡ index + position) × (r ≡ some (i, claim_at position size nodes))

module _ (size index : ℕ) (node : HeapPage) (rest : List HeapPage) (lag : ℕ) where
  Claims-skip :
      (fit : Option ℕ) (r : Option (ℕ × List HeapPage))
      → Claims size index rest fit lag r
      → Claims size index (node ∷ rest) (Option.map suc fit) (1 + lag) (behind node r)
  Claims-skip none r h = rw h
  Claims-skip (some position) r (i, gap, e) = (i, omega arith, rw e)

  Claims-next :
      (fit : Option ℕ) (r : Option (ℕ × List HeapPage))
      → Claims size (index + 1) rest fit lag r
      → Claims size index (node ∷ rest) (Option.map suc fit) (0 + lag) (behind node r)
  Claims-next none r h = rw h
  Claims-next (some position) r (i, gap, e) = (i, omega arith, rw e)

-- One round at a node, given what the two continuations do.
module _ (n index : ℕ) (node : HeapPage) (rest : List HeapPage)
    (skip next : Option (ℕ × List HeapPage)) where
  abbrev fit_behind : Option ℕ
  fit_behind = Option.map suc (first_fit (suc n) rest)

  abbrev lag_behind : ℕ
  lag_behind = short_runs (suc n) rest

  abbrev Round : Option (ℕ × List HeapPage) → Type 0
  Round r =
      Claims (suc n) index (node ∷ rest) (first_fit (suc n) (node ∷ rest))
        (short_runs (suc n) (node ∷ rest)) r

  -- what `short_runs` counts for `node`
  abbrev lag_here : ℕ
  lag_here = if node.status == 0 && not (free_run (suc n - 1) (node ∷ rest)) then 1 else 0

  pred_run : {b : Bool} → free_run n (node ∷ rest) ≡ b → free_run (suc n - 1) (node ∷ rest) ≡ b
  pred_run h = rw (pred_suc n) h

  Claims-after_probe :
      (probe : Probe)
      → (node.status == 0) ≡ true
      → Says n (node ∷ rest) probe
      → Claims (suc n) index (node ∷ rest) fit_behind (1 + lag_behind) skip
      → Claims (suc n) index (node ∷ rest) fit_behind (0 + lag_behind) next
      → Round (after_probe (suc n) index (node ∷ rest) skip next probe)
  Claims-after_probe full e short k l =
      rw (first_fit_short (suc n) (node ∷ rest) (omega arith)) refl
  Claims-after_probe taken e h k l = rw (free_run_weaken n (node ∷ rest) h, pred_run h, e) k
  Claims-after_probe (stopped probe) e (head, h) k l =
      rw h (split (is_free probe) (rw (pred_run head, e) l))
    where
      split :
          (b : Bool)
          → Claims (suc n) index (node ∷ rest) fit_behind (lag_here + lag_behind) next
          → Claims
              (suc n)
              index
              (node ∷ rest)
              (if b then some 0 else fit_behind)
              (if b then 0 else lag_here + lag_behind)
              (if b then some (index, claim (suc n) (node ∷ rest)) else next)
      split true m = (index, omega arith, refl)
      split false m = m

  Claims-branch :
      (probe : Probe) (b : Bool)
      → (node.status == 0) ≡ b
      → Says n (node ∷ rest) probe
      → Claims (suc n) index (node ∷ rest) fit_behind (1 + lag_behind) skip
      → Claims (suc n) index (node ∷ rest) fit_behind (0 + lag_behind) next
      → Round (if b then after_probe (suc n) index (node ∷ rest) skip next probe else next)
  Claims-branch probe true e says k l = Claims-after_probe probe e says k l
  Claims-branch probe false e says k l = rw e l

kmalloc_loop-Claims :
    (n index : ℕ) (nodes : List HeapPage)
    → IsHeap nodes
    → Claims
        (suc n)
        index
        nodes
        (first_fit (suc n) nodes)
        (short_runs (suc n) nodes)
        (kmalloc_loop (suc n) index nodes)
unfolding kmalloc_loop
kmalloc_loop-Claims n index [] h = refl
kmalloc_loop-Claims n index (node ∷ rest) h =
    let lag = short_runs (suc n) rest in
    Claims-branch n index node rest _ _ (probe_loop (suc n - 1) (node ∷ rest)) (node.status == 0)
      refl (rw (pred_suc n) (probe_loop-Says n node rest h))
      (Claims-skip (suc n) index node rest lag _ _ (kmalloc_loop-Claims n index rest h.1))
      (Claims-next (suc n) index node rest lag _ _ (kmalloc_loop-Claims n (index + 1) rest h.1))

-- The outcome of `kmalloc`, given the position of the first run of `size` free nodes.
abbrev pub Outcome : ℕ → List HeapPage → Option ℕ → ℕ × List HeapPage → Type 0
Outcome size nodes none r = r ≡ (0, nodes)
Outcome size nodes (some position) r =
    (i : ℕ) × (i + short_runs size nodes ≡ position)
    × (r ≡ (chunk_address i, claim_at position size nodes))

Outcome-returned :
    (size : ℕ) (nodes : List HeapPage) (fit : Option ℕ) (r : Option (ℕ × List HeapPage))
    → Claims size 0 nodes fit (short_runs size nodes) r
    → Outcome size nodes fit (returned nodes r)
Outcome-returned size nodes none r h = rw h
Outcome-returned size nodes (some position) r (i, gap, e) = (i, omega arith, rw e)

-- On a heap whose statuses are 0 and 1, `kmalloc` of `size` > 0 chunks claims exactly the first
-- run of `size` free nodes, at a position p, and returns the address of chunk p less the number
-- of free nodes before p from which fewer than `size - 1` nodes in a row are free; if there is no
-- such run, it returns NULL and changes nothing.
pub kmalloc-Outcome :
    (size : ℕ) (nodes : List HeapPage)
    → 0 < size
    → IsHeap nodes
    → Outcome size nodes (first_fit size nodes) (kmalloc size nodes)
unfolding kmalloc
kmalloc-Outcome zero nodes pos h = absurd (omega arith)
kmalloc-Outcome (suc n) nodes pos h =
    rw (suc-beq_zero n) (Outcome-returned (suc n) nodes _ _ (kmalloc_loop-Claims n 0 nodes h))
