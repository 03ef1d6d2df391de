-- ===== src/Heap/Bytes.antt =====
-- Sizes in bytes: `kmalloc_byte` and `krealloc_byte`.
use willow_os.Prelude.{
  ℕ, ◌+◌, ◌*◌, ◌≤◌, ◌<◌, ◌≡◌, ◌≢◌, refl, ◌⊎◌, inl, inr, some, List, ◌==◌, if◌then◌else◌, arith,
  ne_zero, ap, ◌∙◌, ◌-◌,
}
use willow_os.Memory.{memcpy}
use willow_os.Memory.Copy.{UpSafe, copied, memcpy-copied}
use willow_os.Heap.{
  HeapPage, HeapState, kmalloc, chunks_of, kmalloc_byte, kmalloc_byte_interruptable, kfree,
  chunk_index, alloc_length_at, kept_bytes, move_block, krealloc_byte,
}

-- `kmalloc_byte` asks for the least number of 64-byte chunks that hold `size` bytes.
pub kmalloc_byte-chunks :
    (size : ℕ) (nodes : List HeapPage)
    → (kmalloc_byte size nodes ≡ kmalloc (chunks_of size) nodes)
      × (size ≤ chunks_of size * 64)
      × (chunks_of size * 64 < size + 64)
unfolding kmalloc_byte chunks_of
kmalloc_byte-chunks size nodes = (refl, ground arith, ground arith)

interruptable :
    (size : ℕ) (nodes : List HeapPage)
    → kmalloc_byte_interruptable size nodes ≡ kmalloc_byte size nodes
unfolding kmalloc_byte_interruptable kmalloc_byte
interruptable size nodes = refl

-- If the heap has no room, or there is no old block, `krealloc_byte` is the allocation alone.
pub krealloc_byte-alloc :
    (virt_address size : ℕ) (s : HeapState)
    → ((kmalloc_byte size s.nodes).0 ≡ 0) ⊎ (virt_address ≡ 0)
    → krealloc_byte virt_address size s
      ≡ some ((kmalloc_byte size s.nodes).0, record s { nodes = (kmalloc_byte size s.nodes).1 })
unfolding krealloc_byte
krealloc_byte-alloc virt_address size s =
    rw (← interruptable size s.nodes) (split virt_address (kmalloc_byte_interruptable size s.nodes))
  where
    split :
        (virt : ℕ) (r : ℕ × List HeapPage)
        → (r.0 ≡ 0) ⊎ (virt ≡ 0)
        → (if r.0 == 0
            then some (r.0, record s { nodes = r.1 })
            else (if virt == 0
                then some (r.0, record s { nodes = r.1 })
                else move_block virt size r.0 (record s { nodes = r.1 })))
          ≡ some (r.0, record s { nodes = r.1 })
    split virt r (inl h) = ground arith
    split virt r (inr h) = ground arith

-- When the allocation succeeds and `kfree` of the old block does not fault, `krealloc_byte`
-- returns the new block, whose first bytes, up to the smaller of the old block's recorded length
-- and `size`, are those of the old block, and leaves the bytes before and after them as they were.
pub krealloc_byte-keeps :
    (virt_address size ret old : ℕ) (s : HeapState) (nodes nodes' : List HeapPage)
    → kmalloc_byte size s.nodes ≡ (ret, nodes)
    → ret ≢ 0
    → virt_address ≢ 0
    → alloc_length_at (chunk_index virt_address) nodes ≡ some old
    → kfree virt_address nodes ≡ some nodes'
    → UpSafe ret virt_address (kept_bytes old size)
    → (s' : HeapState) × (krealloc_byte virt_address size s ≡ some (ret, s'))
      × (s'.nodes ≡ nodes')
      × ((j : ℕ) → j < old * 64 → j < size → s'.memory (ret + j) ≡ s.memory (virt_address + j))
      × ((a : ℕ) → (a < ret) ⊎ (ret + size ≤ a) → s'.memory a ≡ s.memory a)
unfolding krealloc_byte move_block
krealloc_byte-keeps virt_address size ret old s nodes nodes' alloc ne ne' len freed safe = (
  record { nodes = nodes'; memory = memcpy ret virt_address kept s.memory },
  rw (interruptable size s.nodes ∙ alloc, ne_zero ret ne, ne_zero virt_address ne', len, freed),
  refl,
  λ j in_old in_new. ground (arith, same (ret + j), shift j),
  λ a outside. ground (arith, same a),
)
  where
    kept : ℕ
    kept = kept_bytes old size

    same :
        (a : ℕ) → memcpy ret virt_address kept s.memory a ≡ copied ret virt_address kept s.memory a
    same a = memcpy-copied ret virt_address kept s.memory a safe

    shift : (j : ℕ) → s.memory (virt_address + (ret + j - ret)) ≡ s.memory (virt_address + j)
    shift j = ap s.memory (omega arith)
