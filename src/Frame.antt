-- ===== src/Frame.antt =====
-- Physical frames: `alloc_frame` and `free_frame` of
-- limine-c-template-x86-64/kernel/src/paging.c, and `struct usable_memmaps_region` of paging.h. The
-- list of regions from `memmap_arr[0]` is the list in order, a suffix of it is `current`. A region's
-- bitmap is a function, since the code reads and writes it without a bound.
use willow_os.Prelude.{
  ℕ, zero, suc, ◌+◌, ◌-◌, ◌*◌, ◌/◌, ◌%◌, ◌^◌, Bool, true, false, Option, none, some, List, [], ◌∷◌,
  ◌==◌, ◌&&◌, ◌||◌, ltb, leb, if◌then◌else◌,
}
pub mod Free
pub mod Alloc
pub mod Freeing
pub mod Layout

pub record Region : Type 0 where
  pub base : ℕ
  pub length : ℕ
  pub type : ℕ
  pub frame_bitmap : ℕ → ℕ

-- `frame_bitmap[i] = v`.
abbrev pub set_bitmap : Region → ℕ → ℕ → Region
set_bitmap r i v = record r { frame_bitmap = λ j. if j == i then v else r.frame_bitmap j }

-- The `for` loop over a region's frames: the first index that is free, with the rounds left.
unfoldable pub scan_region : (rounds i : ℕ) → Region → Option ℕ
scan_region zero i r = none
scan_region (suc k) i r =
    let rest = scan_region k (i + 1) r in
    if r.frame_bitmap i == 0 && r.type == 0 then some i else rest

-- What `alloc_frame` finds: the frame's address, its index in its region, and the regions after.
pub record Grant : Type 0 where
  pub address : ℕ
  pub index : ℕ
  pub regions : List Region

abbrev pub grant_behind : Region → Option Grant → Option Grant
grant_behind r none = none
grant_behind r (some g) = some (record g { regions = r ∷ g.regions })

abbrev pub grant_at : Region → List Region → Option Grant → Option ℕ → Option Grant
grant_at r rest later none = later
grant_at r rest later (some i) =
    some (record { address = r.base + i * 4096; index = i; regions = set_bitmap r i 1 ∷ rest })

-- The `while` loop over the regions.
unfoldable pub alloc_regions : List Region → Option Grant
unfolding scan_region
alloc_regions [] = none
alloc_regions (r ∷ rest) =
    let later = grant_behind r (alloc_regions rest) in
    grant_at r rest later (scan_region (r.length / 4096) 0 r)

-- The allocator with the memory that it clears: the 64-bit word at each address.
pub record Machine : Type 0 where
  pub regions : List Region
  pub last_alloced_frame : ℕ
  pub hhdm_offset : ℕ
  pub words : ℕ → ℕ

-- `memset(page, 0x00, 4096)`.
abbrev pub clear_page : ℕ → (ℕ → ℕ) → ℕ → ℕ
clear_page page words a = if leb page a && ltb a (page + 4096) then 0 else words a

abbrev pub granted : Machine → Option Grant → ℕ × Machine
granted m none = (0, m)
granted m (some g) = (
  g.address,
  record m {
    regions = g.regions;
    last_alloced_frame = g.index % 2 ^ 8;
    words = clear_page (g.address + m.hhdm_offset) m.words;
  },
)

-- The address of the frame and the state after; 0 if no frame is free.
unfoldable pub alloc_frame : Machine → ℕ × Machine
alloc_frame m = granted m (alloc_regions m.regions)

-- How `free_frame` ends: by returning, by a failed assertion, or not within the fuel.
pub data Release : Type 0 where
  freed : List Region → Release
  asserted : Release
  spinning : Release

abbrev pub release_behind : Region → Release → Release
release_behind r (freed rest) = freed (r ∷ rest)
release_behind r asserted = asserted
release_behind r spinning = spinning

-- `(phys_address - current->base) / 4096`.
abbrev pub frame_index : ℕ → ℕ → ℕ
frame_index phys_address base = (phys_address + 2 ^ 64 - base) % 2 ^ 64 / 4096

-- The `while` loop, from `current`.
unfoldable pub free_loop : (fuel phys_address : ℕ) → List Region → Release
free_loop zero phys_address current = spinning
free_loop (suc f) phys_address [] = freed []
free_loop (suc f) phys_address (r ∷ []) =
    freed (set_bitmap r (frame_index phys_address r.base) 0 ∷ [])
free_loop (suc f) phys_address (r ∷ next ∷ rest) =
    let stay = free_loop f phys_address (r ∷ next ∷ rest) in
    let onward = release_behind r (free_loop f phys_address (next ∷ rest)) in
    if leb r.base phys_address && ltb phys_address next.base
    then (if r.frame_bitmap (frame_index phys_address r.base) == 0
        then asserted
        else freed (set_bitmap r (frame_index phys_address r.base) 0 ∷ next ∷ rest))
    else (if ltb (r.base + r.length) phys_address then onward else stay)

unfoldable pub free_frame : (fuel phys_address : ℕ) → List Region → Release
free_frame fuel phys_address regions =
    if phys_address % 4096 == 0 then free_loop fuel phys_address regions else asserted
