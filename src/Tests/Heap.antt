-- ===== src/Tests/Heap.antt =====
-- Small heaps, and the theorems on the allocator of vmm.c at them.
use willow_os.Prelude.{
  ℕ, ◌+◌, ◌*◌, ◌≡◌, ◌<◌, ◌≤◌, ◌⊎◌, inr, refl, ◌++◌, ◌%◌, some, List, [], ◌∷◌, arith,
}
use willow_os.Memory.{Memory}
use willow_os.Heap.{
  HeapPage, HeapState, kmalloc, kfree, kmalloc_byte, krealloc_byte, chunks_of, chunk_address,
}
use willow_os.Heap.Run.{IsHeap, first_fit, claim_at}
use willow_os.Heap.Alloc.{Outcome, kmalloc-Outcome}
use willow_os.Heap.Effects.{kmalloc_overlap}
use willow_os.Heap.Free.{Freed, kfree-Freed}
use willow_os.Heap.Bytes.{krealloc_byte-keeps}

abbrev free_page : HeapPage
free_page = record { status = 0; size = 64; alloc_length = 0 }

abbrev used_page : HeapPage
used_page = record { status = 1; size = 64; alloc_length = 1 }

abbrev first_page : HeapPage
first_page = record { status = 1; size = 64; alloc_length = 2 }

abbrev three_free : List HeapPage
three_free = free_page ∷ free_page ∷ free_page ∷ []

abbrev mixed : List HeapPage
mixed = used_page ∷ free_page ∷ free_page ∷ free_page ∷ []

abbrev block : List HeapPage
block = first_page ∷ used_page ∷ free_page ∷ []

three_free-IsHeap : IsHeap three_free
three_free-IsHeap = (omega arith, (omega arith, (omega arith, tt)))

mixed-IsHeap : IsHeap mixed
mixed-IsHeap = (omega arith, (omega arith, (omega arith, (omega arith, tt))))

abbrev blank : Memory
blank a = 0

abbrev state : HeapState
state = record { nodes = block; memory = blank }

kmalloc-Outcome_example : Outcome 2 mixed (first_fit 2 mixed) (kmalloc 2 mixed)
kmalloc-Outcome_example = kmalloc-Outcome 2 mixed (omega arith) mixed-IsHeap

kmalloc_overlap_example :
    kmalloc 3 (free_page ∷ used_page ∷ three_free)
    ≡ (chunk_address 1, claim_at 2 3 (free_page ∷ used_page ∷ three_free))
kmalloc_overlap_example =
    kmalloc_overlap 3 free_page used_page three_free (omega arith) three_free-IsHeap refl refl refl

kfree-Freed_example :
    (nodes' : List HeapPage) × (kfree (chunk_address 1) block ≡ some nodes')
    × Freed 0 1 block nodes'
kfree-Freed_example = kfree-Freed 1 2 block (omega arith) refl (omega arith)

abbrev last_page : HeapPage
last_page = record { status = 1; size = 64; alloc_length = 0 }

abbrev behind_first : List HeapPage
behind_first = used_page ∷ first_page ∷ last_page ∷ free_page ∷ free_page ∷ []

abbrev larger : HeapState
larger = record { nodes = block ++ three_free; memory = λ a. a % 256 }

krealloc_byte-keeps_example :
    (s' : HeapState) × (krealloc_byte (chunk_address 0) 100 larger ≡ some (chunk_address 2, s'))
    × (s'.nodes ≡ free_page ∷ behind_first)
    × ((j : ℕ)
        → j < 2 * 64
        → j < 100
        → s'.memory (chunk_address 2 + j) ≡ larger.memory (chunk_address 0 + j))
    × ((a : ℕ)
        → (a < chunk_address 2) ⊎ (chunk_address 2 + 100 ≤ a)
        → s'.memory a ≡ larger.memory a)
unfolding kmalloc_byte kmalloc chunks_of kfree
krealloc_byte-keeps_example =
    krealloc_byte-keeps (chunk_address 0) 100 (chunk_address 2) 2 larger (first_page ∷ behind_first)
      (free_page ∷ behind_first) refl (λ h. omega arith) (λ h. omega arith) refl refl
      (inr (omega arith))
