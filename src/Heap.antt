-- ===== src/Heap.antt =====
-- The chunk allocator of limine-c-template-x86-64/kernel/src/vmm.c and vmm.h. The linked list from
-- `heap_page_head` is the list of its nodes in order: a suffix of it is the pointer `current` or
-- `probe`, and the empty suffix is NULL. Interrupts are off in each call, so a call is one step.
use mathlib.Core.Option
use willow_os.Prelude.{
  ℕ, zero, suc, ◌+◌, ◌-◌, ◌*◌, ◌/◌, ◌%◌, ◌^◌, Bool, true, false, Option, none, some, List, [], ◌∷◌,
  ◌==◌, ltb, leb, if◌then◌else◌, ◌>>=◌,
}
use willow_os.Memory.{Memory, memcpy}
pub mod Run
pub mod Alloc
pub mod Effects
pub mod Free
pub mod Bytes

-- `struct heap_page_virt`, less `next`. A chunk is free at status 0 and used at status 1.
pub record HeapPage : Type 0 where
  pub status : ℕ
  pub size : ℕ
  pub alloc_length : ℕ

abbrev pub heap_start_virt_defined : ℕ
heap_start_virt_defined = 0xffffc00000000000

abbrev pub heap_chunk_size_defined : ℕ
heap_chunk_size_defined = 64

-- The address of the chunk at an index, as `kmalloc` computes it.
abbrev pub chunk_address : ℕ → ℕ
chunk_address index = (heap_start_virt_defined + index * heap_chunk_size_defined) % 2 ^ 64

-- The index of an address, as `kfree` and `krealloc_byte` compute it.
abbrev pub chunk_index : ℕ → ℕ
chunk_index address =
    (address + 2 ^ 64 - heap_start_virt_defined) % 2 ^ 64 / heap_chunk_size_defined

-- How the probing loop of `kmalloc` ends: at the end of the heap, at a used node, or with `probe`
-- at the last node of the block.
pub data Probe : Type 0 where
  full : Probe
  taken : Probe
  stopped : List HeapPage → Probe

-- The `for` loop over `size - 1` nodes; the argument counts the rounds left.
unfoldable pub probe_loop : ℕ → List HeapPage → Probe
probe_loop zero probe = stopped probe
probe_loop (suc n) [] = full
probe_loop (suc n) (node ∷ []) = full
probe_loop (suc n) (node ∷ next ∷ rest) =
    let onward = probe_loop n (next ∷ rest) in if node.status == 1 then taken else onward

-- `probe->status == 0`.
abbrev pub is_free : List HeapPage → Bool
is_free [] = false
is_free (node ∷ rest) = node.status == 0

-- The `for` loop that sets the status of the block.
unfoldable pub mark_used : ℕ → List HeapPage → List HeapPage
mark_used zero nodes = nodes
mark_used (suc n) [] = []
mark_used (suc n) (node ∷ rest) = record node { status = 1 } ∷ mark_used n rest

unfoldable pub set_alloc_length : ℕ → List HeapPage → List HeapPage
set_alloc_length size [] = []
set_alloc_length size (node ∷ rest) = record node { alloc_length = size } ∷ rest

-- The block of `size` nodes from `current` on is claimed.
unfoldable pub claim : ℕ → List HeapPage → List HeapPage
unfolding mark_used set_alloc_length
claim size current = set_alloc_length size (mark_used size current)

-- The list as it is after a change of what follows its first node.
abbrev pub behind : HeapPage → Option (ℕ × List HeapPage) → Option (ℕ × List HeapPage)
behind node = Option.map (λ (r : ℕ × List HeapPage). (r.0, node ∷ r.1))

-- The branches after the probing loop, from a free `current`. A used node inside the block takes
-- `skip`, which moves `current` on and leaves `index` as it is.
abbrev pub after_probe :
    (size index : ℕ) (current : List HeapPage) (skip next : Option (ℕ × List HeapPage))
    → Probe
    → Option (ℕ × List HeapPage)
after_probe size index current skip next full = none
after_probe size index current skip next taken = skip
after_probe size index current skip next (stopped probe) =
    if is_free probe then some (index, claim size current) else next

-- The `while` loop, from `current` and `index`: the index of the result, and the list from
-- `current` on.
unfoldable pub kmalloc_loop : ℕ → ℕ → List HeapPage → Option (ℕ × List HeapPage)
unfolding probe_loop claim
kmalloc_loop size index [] = none
kmalloc_loop size index (node ∷ rest) =
    let skip = behind node (kmalloc_loop size index rest) in
    let next = behind node (kmalloc_loop size (index + 1) rest) in
    if node.status == 0
    then after_probe size index (node ∷ rest) skip next (probe_loop (size - 1) (node ∷ rest))
    else next

-- The returned address and the list; a full heap and `size` 0 give NULL and no change.
abbrev pub returned : List HeapPage → Option (ℕ × List HeapPage) → ℕ × List HeapPage
returned nodes none = (0, nodes)
returned nodes (some (index, nodes')) = (chunk_address index, nodes')

unfoldable pub kmalloc : ℕ → List HeapPage → ℕ × List HeapPage
unfolding kmalloc_loop
kmalloc size nodes = if size == 0 then (0, nodes) else returned nodes (kmalloc_loop size 0 nodes)

-- The loop of `kfree` that frees nodes; `none` is a read through NULL.
unfoldable pub release : ℕ → List HeapPage → Option (List HeapPage)
release zero nodes = some nodes
release (suc n) [] = none
release (suc n) (node ∷ rest) = Option.map (◌∷◌ (record node { status = 0 })) (release n rest)

-- The rest of `kfree`, at the node that is `steps` nodes after `current`. The loop that frees
-- starts at 1.
unfoldable pub kfree_at : ℕ → List HeapPage → Option (List HeapPage)
unfolding release
kfree_at steps [] = none
kfree_at zero (node ∷ rest) =
    release (node.alloc_length - 1) (record node { alloc_length = 0 } ∷ rest)
kfree_at (suc steps) (node ∷ rest) = Option.map (◌∷◌ node) (kfree_at steps rest)

-- The loop that looks for the node starts at 1.
unfoldable pub kfree : ℕ → List HeapPage → Option (List HeapPage)
unfolding kfree_at
kfree virt_address nodes = kfree_at (chunk_index virt_address - 1) nodes

-- The same loops, with the log after the interrupts are restored.
unfoldable pub kfree_interruptable : ℕ → List HeapPage → Option (List HeapPage)
kfree_interruptable virt_address nodes = kfree_at (chunk_index virt_address - 1) nodes

-- Chunks for a number of bytes, by the three branches of `kmalloc_byte`.
unfoldable pub chunks_of : ℕ → ℕ
chunks_of size =
    if size == 0
    then 0
    else (if leb size 64 then 1 else (if size % 64 == 0 then size / 64 else size / 64 + 1))

unfoldable pub kmalloc_byte : ℕ → List HeapPage → ℕ × List HeapPage
kmalloc_byte size nodes = kmalloc (chunks_of size) nodes

-- The same function, without the interrupt flag.
unfoldable pub kmalloc_byte_interruptable : ℕ → List HeapPage → ℕ × List HeapPage
kmalloc_byte_interruptable size nodes = kmalloc (chunks_of size) nodes

-- The recorded length at the node that is a number of nodes after the head.
abbrev pub alloc_length_at : ℕ → List HeapPage → Option ℕ
alloc_length_at i [] = none
alloc_length_at zero (node ∷ rest) = some node.alloc_length
alloc_length_at (suc i) (node ∷ rest) = alloc_length_at i rest

-- The heap with the bytes that its chunks hold.
pub record HeapState : Type 0 where
  pub nodes : List HeapPage
  pub memory : Memory

-- The number of bytes that `krealloc_byte` copies.
abbrev pub kept_bytes : ℕ → ℕ → ℕ
kept_bytes alloc_length size = if leb size (alloc_length * 64) then size else alloc_length * 64

-- The part of `krealloc_byte` after its two early returns.
unfoldable pub move_block : (virt_address size ret : ℕ) → HeapState → Option (ℕ × HeapState)
move_block virt_address size ret s = do
  alloc_length ← alloc_length_at (chunk_index virt_address) s.nodes
  nodes ← kfree virt_address s.nodes
  some (
    ret,
    record {
      nodes = nodes;
      memory = memcpy ret virt_address (kept_bytes alloc_length size) s.memory;
    },
  )

-- The returned address and the state; `none` is a read through NULL.
unfoldable pub krealloc_byte : (virt_address size : ℕ) → HeapState → Option (ℕ × HeapState)
krealloc_byte virt_address size s =
    let (ret, nodes) = kmalloc_byte_interruptable size s.nodes in
    if ret == 0
    then some (ret, record s { nodes = nodes })
    else (if virt_address == 0
        then some (ret, record s { nodes = nodes })
        else move_block virt_address size ret (record s { nodes = nodes }))
