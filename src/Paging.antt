-- ===== src/Paging.antt =====
-- Page tables: map_page, map_range, unmap_page, change_page_map, change_page_map_range, virt_to_phys
-- and virt_to_phys_page of limine-c-template-x86-64/kernel/src/paging.c, over the words that the
-- higher-half window shows, and the mappings that scheduler.h keeps for the running thread.
use willow_os.Prelude.{
  ℕ, zero, suc, ◌+◌, ◌-◌, ◌*◌, ◌/◌, ◌%◌, ◌^◌, bit_or, Bool, true, false, Option, none, some, List,
  [], ◌∷◌, ◌++◌, ◌==◌, leb, if◌then◌else◌, replicate,
}
use willow_os.Frame.{Machine, alloc_frame}
mod Bookkeeping
pub use Bookkeeping.{
  Mapping, unused, Mappings, slot_behind, with_slot, drop_behind, without_slot, set_flag,
}
unfoldable pub use Bookkeeping.{take_slot, grow, record_mapping, drop_slot, forget_mapping}
pub mod Descent
pub mod Roundtrip
pub mod Range
pub mod Slots
pub mod Booking
pub mod Forgetting

-- The four 9-bit indices and the 12-bit offset of a virtual address.
abbrev pub pml4_index : ℕ → ℕ
pml4_index virt_address = virt_address / 2 ^ 39 % 512

abbrev pub pdpt_index : ℕ → ℕ
pdpt_index virt_address = virt_address / 2 ^ 30 % 512

abbrev pub pd_index : ℕ → ℕ
pd_index virt_address = virt_address / 2 ^ 21 % 512

abbrev pub pt_index : ℕ → ℕ
pt_index virt_address = virt_address / 2 ^ 12 % 512

-- `entry & ~0xfff`.
abbrev pub page_of : ℕ → ℕ
page_of entry = entry / 4096 * 4096

-- The table that an entry points to, `(entry & ~0xfff) + hhdm_offset`.
abbrev pub table_of : (entry hhdm_offset : ℕ) → ℕ
table_of entry hhdm_offset = (page_of entry + hhdm_offset) % 2 ^ 64

-- `table->entries[index]`.
abbrev pub slot : (table index : ℕ) → ℕ
slot table index = table + 8 * index

abbrev pub write : (ℕ → ℕ) → ℕ → ℕ → ℕ → ℕ
write words a v x = if x == a then v else words x

-- The machine, and what is known of the running thread once scheduling has started.
pub record Space : Type 0 where
  pub machine : Machine
  pub scheduling_started : Bool
  pub mappings : Mappings

-- One level of `map_page`: the entry at an index, made and written if it is not present.
unfoldable pub descend : (table index permissions : ℕ) → Machine → ℕ × Machine
descend table index permissions m =
    if m.words (slot table index) % 2 == 0
    then (let (frame, m') = alloc_frame m in
        let new_entry = bit_or frame permissions in
        (new_entry, record m' { words = write m'.words (slot table index) new_entry }))
    else (m.words (slot table index), m)

-- The tables that `map_page` walks through below `pml4`, and the machine at the end of the walk.
pub record Walk : Type 0 where
  pub pdpt : ℕ
  pub pd : ℕ
  pub pt : ℕ
  pub machine : Machine

unfoldable pub walk : (pml4 virt_address permissions : ℕ) → Machine → Walk
walk pml4 virt_address permissions m =
    let (pml4_entry, m1) = descend pml4 (pml4_index virt_address) permissions m in
    let pdpt = table_of pml4_entry m.hhdm_offset in
    let (pdpt_entry, m2) = descend pdpt (pdpt_index virt_address) permissions m1 in
    let pd = table_of pdpt_entry m.hhdm_offset in
    let (pd_entry, m3) = descend pd (pd_index virt_address) permissions m2 in
    record { pdpt = pdpt; pd = pd; pt = table_of pd_entry m.hhdm_offset; machine = m3 }

-- The memory after `map_page`.
abbrev pub mapped : (pml4 phys_address virt_address permissions : ℕ) → Machine → Machine
mapped pml4 phys_address virt_address permissions m =
    let w = walk pml4 virt_address permissions m in
    record w.machine {
      words =
          write w.machine.words (slot w.pt (pt_index virt_address))
            (bit_or phys_address permissions);
    }

-- What `map_page` returns and records; `UINT64_MAX` before scheduling has started.
abbrev pub booked : (scheduling_started : Bool) → ℕ → Mappings → ℕ × Mappings
booked true virt_address t = record_mapping virt_address t
booked false virt_address t = (2 ^ 64 - 1, t)

unfoldable pub map_page :
    (pml4_address phys_address virt_address permissions : ℕ) → Space → ℕ × Space
map_page pml4_address phys_address virt_address permissions s =
    let (ret, t) = booked s.scheduling_started virt_address s.mappings in
    (
      ret,
      record s {
        machine = mapped pml4_address phys_address virt_address permissions s.machine;
        mappings = t;
      },
    )

-- The page table that holds the entry of an address, found by reading alone.
unfoldable pub page_table : (cr3 virt_address hhdm_offset : ℕ) → (ℕ → ℕ) → ℕ
page_table cr3 virt_address hhdm_offset words =
    let pdpt = table_of (words (slot cr3 (pml4_index virt_address))) hhdm_offset in
    let pd = table_of (words (slot pdpt (pdpt_index virt_address))) hhdm_offset in
    table_of (words (slot pd (pd_index virt_address))) hhdm_offset

unfoldable pub virt_to_phys : (virt_address cr3 : ℕ) → Machine → ℕ
unfolding page_table
virt_to_phys virt_address cr3 m =
    let pt = page_table cr3 virt_address m.hhdm_offset m.words in
    page_of (m.words (slot pt (pt_index virt_address))) + virt_address % 4096

unfoldable pub virt_to_phys_page : (virt_address cr3 : ℕ) → Machine → ℕ
unfolding virt_to_phys
virt_to_phys_page virt_address cr3 m = page_of (virt_to_phys virt_address cr3 m)

unfoldable pub unmap_page : (pml4_address virt_address : ℕ) → Space → Space
unfolding page_table forget_mapping
unmap_page pml4_address virt_address s =
    let m = s.machine in
    let pt = page_table pml4_address virt_address m.hhdm_offset m.words in
    let words = write m.words (slot pt (pt_index virt_address)) 0 in
    record {
      machine = record m { words = words };
      scheduling_started = s.scheduling_started;
      mappings =
          if s.scheduling_started then forget_mapping virt_address s.mappings else s.mappings;
    }

-- `words[at] |= permissions`, with the entry written and the memory after.
unfoldable pub widen : (at permissions : ℕ) → (ℕ → ℕ) → ℕ × (ℕ → ℕ)
widen at permissions words =
    let entry = bit_or (words at) permissions in (entry, write words at entry)

unfoldable pub change_page_map : (cr3 virt_address permissions : ℕ) → Machine → Machine
change_page_map cr3 virt_address permissions m =
    let (pml4_entry, w1) = widen (slot cr3 (pml4_index virt_address)) permissions m.words in
    let pdpt = table_of pml4_entry m.hhdm_offset in
    let (pdpt_entry, w2) = widen (slot pdpt (pdpt_index virt_address)) permissions w1 in
    let pd = table_of pdpt_entry m.hhdm_offset in
    let (pd_entry, w3) = widen (slot pd (pd_index virt_address)) permissions w2 in
    let pt = table_of pd_entry m.hhdm_offset in
    let (pt_entry, w4) = widen (slot pt (pt_index virt_address)) permissions w3 in
    record m { words = w4 }

abbrev pub einval : ℕ
einval = 22

-- The number of rounds in the branches of `map_range` and `change_page_map_range` for a size that
-- is not 0.
unfoldable pub pages_of : (virt_address size : ℕ) → ℕ
pages_of virt_address size =
    let total = (size + virt_address % 4096) % 2 ^ 64 in
    if leb total 4096 then 1 else (if total % 4096 == 0 then total / 4096 else total / 4096 + 1)

abbrev pub flagged : (index flag : ℕ) → Space → Space
flagged index flag s =
    if s.scheduling_started
    then (record s {
      mappings = record (s.mappings) {
        mapped_virt_addresses_array = set_flag index flag s.mappings.mapped_virt_addresses_array;
      };
    })
    else s

-- One round of `map_range`: a frame for page `i` of the range.
unfoldable pub map_round : (pml4 virt_address permissions flag i : ℕ) → Space → Space
map_round pml4 virt_address permissions flag i s =
    let (phys_page, m) = alloc_frame s.machine in
    let (ret, s') =
      map_page pml4 phys_page ((virt_address + i * 4096) % 2 ^ 64) permissions
        (record s { machine = m }) in
    flagged ret flag s'

unfoldable pub map_rounds : (rounds i pml4 virt_address permissions flag : ℕ) → Space → Space
map_rounds zero i pml4 virt_address permissions flag s = s
map_rounds (suc k) i pml4 virt_address permissions flag s =
    map_rounds k (i + 1) pml4 virt_address permissions flag
      (map_round pml4 virt_address permissions flag i s)

unfoldable pub map_range : (pml4_address virt_address permissions size flag : ℕ) → Space → ℕ × Space
map_range pml4_address virt_address permissions size flag s =
    if size == 0
    then (einval, s)
    else (0, map_rounds (pages_of virt_address size) 0 pml4_address virt_address permissions flag s)

unfoldable pub change_rounds : (rounds i cr3 virt_address permissions : ℕ) → Machine → Machine
change_rounds zero i cr3 virt_address permissions m = m
change_rounds (suc k) i cr3 virt_address permissions m =
    change_rounds k (i + 1) cr3 virt_address permissions
      (change_page_map cr3 ((virt_address + i * 4096) % 2 ^ 64) permissions m)

unfoldable pub change_page_map_range :
    (cr3 virt_address size permissions : ℕ) → Machine → ℕ × Machine
change_page_map_range cr3 virt_address size permissions m =
    if size == 0
    then (einval, m)
    else (0, change_rounds (pages_of virt_address size) 0 cr3 virt_address permissions m)
