-- ===== src/Boot.antt =====
-- What the kernel sets up before it runs: init_memmaps of
-- limine-c-template-x86-64/kernel/src/main.c, init_heap of vmm.c and create_descriptor and
-- create_tss_descriptor of gdt.c.
use willow_os.Prelude.{
  ℕ, zero, suc, ◌+◌, ◌-◌, ◌*◌, ◌/◌, ◌%◌, ◌^◌, bit_or, Bool, true, false, Option, none, some, List,
  [], ◌∷◌, ◌==◌, ◌&&◌, ltb, leb, if◌then◌else◌, length, ◌>>=◌,
}
use willow_os.Frame.{Region, set_bitmap, alloc_frame}
use willow_os.Paging.{Space, map_page}
use willow_os.Heap.{HeapPage, heap_start_virt_defined}
pub mod Memmaps
pub mod HeapStart
pub mod Descriptor

-- `struct limine_memmap_entry` of the boot loader.
pub record MemmapEntry : Type 0 where
  pub base : ℕ
  pub length : ℕ
  pub type : ℕ

-- The loop that clears the bitmap of a region.
unfoldable pub clear_frames : (rounds i : ℕ) → Region → Region
clear_frames zero i r = r
clear_frames (suc k) i r = clear_frames k (i + 1) (set_bitmap r i 0)

abbrev pub entry_region : (before : ℕ → ℕ) → MemmapEntry → Region
entry_region before e = record {
  base = e.base;
  length = e.length;
  type = e.type % 2 ^ 8;
  frame_bitmap = before;
}

-- A region of `memmap_arr` filled in from an entry, `before` being its bitmap before; `none` is a
-- write past the 600000 bytes of the bitmap.
unfoldable pub fill_region : (before : ℕ → ℕ) → MemmapEntry → Option Region
fill_region before e =
    let r = entry_region before e in
    if ltb (e.length / 4096) 600000
    then some (set_bitmap (clear_frames (e.length / 4096) 0 r) (e.length / 4096) 2)
    else none

unfoldable pub fill_regions : (before : ℕ → ℕ) → List MemmapEntry → Option (List Region)
fill_regions before [] = some []
fill_regions before (e ∷ rest) =
    let later = fill_regions before rest in
    fill_region before e >>= (λ r. later >>= (λ rs. some (r ∷ rs)))

-- `init_memmaps`: `none` if there is no entry, or more than the 32 of `memmap_arr`.
unfoldable pub init_memmaps : (before : ℕ → ℕ) → List MemmapEntry → Option (List Region)
init_memmaps before entries =
    if leb 1 (length entries) && leb (length entries) 32 then fill_regions before entries else none

abbrev pub new_page : HeapPage
new_page = record { status = 0; size = 64; alloc_length = 0 }

-- The list of nodes that `init_heap` links, their addresses, and the mappings that it makes.
pub record Start : Type 0 where
  pub nodes : List HeapPage
  pub addresses : List ℕ
  pub space : Space

-- A frame, and its mapping at a virtual address, present and writable.
abbrev pub map_frame : (pml4 virt_address : ℕ) → Space → ℕ × Space
map_frame pml4 virt_address s =
    let (frame, m) = alloc_frame s.machine in
    (frame, (map_page pml4 frame virt_address 3 (record s { machine = m })).1)

abbrev pub link : (address : ℕ) → Start → Start
link address t = record {
  nodes = new_page ∷ t.nodes;
  addresses = address ∷ t.addresses;
  space = t.space;
}

-- The node at index `i`, `node` being the one before it: at the start of a page the chunks get a new
-- frame and so do the nodes.
abbrev pub next_node : (i pml4 node : ℕ) → Space → ℕ × Space
next_node i pml4 node s =
    if i % 64 == 0
    then (let (phys, s1) = map_frame pml4 ((heap_start_virt_defined + i * 64) % 2 ^ 64) s in
        let (frame, m) = alloc_frame s1.machine in
        ((frame + s1.machine.hhdm_offset) % 2 ^ 64, record s1 { machine = m }))
    else ((node + 64) % 2 ^ 64, s)

-- The loop from `i` on; 64 nodes lie in a frame, and 64 chunks in a page.
unfoldable pub heap_loop : (rounds i pml4 node : ℕ) → Space → Start
heap_loop zero i pml4 node s = record { nodes = []; addresses = []; space = s }
heap_loop (suc k) i pml4 node s =
    let (node', s') = next_node i pml4 node s in link node' (heap_loop k (i + 1) pml4 node' s')

-- `init_heap` for a heap of `chunks` chunks: the first page is mapped twice, to the frame of the nodes
-- and then to a frame of its own.
unfoldable pub init_heap : (chunks pml4 : ℕ) → Space → Start
init_heap chunks pml4 s =
    let (head, s1) = map_frame pml4 heap_start_virt_defined s in
    let node = (head + s.machine.hhdm_offset) % 2 ^ 64 in
    let (phys, s2) = map_frame pml4 heap_start_virt_defined s1 in
    link node (heap_loop (chunks - 1) 1 pml4 node s2)

-- `create_descriptor`; 0 if the limit exceeds 20 bits.
unfoldable pub create_descriptor : (base limit access flags : ℕ) → ℕ
create_descriptor base limit access flags =
    let low = bit_or (limit % 2 ^ 16) (base % 2 ^ 16 * 2 ^ 16) in
    let middle = bit_or low (base / 2 ^ 16 % 2 ^ 8 * 2 ^ 32) in
    let with_access = bit_or middle (access * 2 ^ 40) in
    let with_limit = bit_or with_access (limit / 2 ^ 16 % 2 ^ 4 * 2 ^ 48) in
    let with_flags = bit_or with_limit (flags % 2 ^ 4 * 2 ^ 52) in
    if ltb 0xfffff limit then 0 else bit_or with_flags (base / 2 ^ 24 % 2 ^ 8 * 2 ^ 56)

-- `create_tss_descriptor`: the two words that it stores in the table, for a 16-bit limit.
unfoldable pub create_tss_descriptor : (base limit : ℕ) → ℕ × ℕ
create_tss_descriptor base limit =
    let low = bit_or (limit % 2 ^ 16) (base % 2 ^ 24 * 2 ^ 16) in
    let with_access = bit_or low (0x89 * 2 ^ 40) in
    let with_limit = bit_or with_access (limit / 2 ^ 16 % 2 ^ 4 * 2 ^ 48) in
    (bit_or with_limit (base / 2 ^ 24 % 2 ^ 8 * 2 ^ 56), base / 2 ^ 32 % 2 ^ 32)
