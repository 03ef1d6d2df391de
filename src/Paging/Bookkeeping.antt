-- ===== src/Paging/Bookkeeping.antt =====
-- The mappings that scheduler.h keeps for the running thread, as map_page, unmap_page and map_range of
-- limine-c-template-x86-64/kernel/src/paging.c read and write them.
use willow_os.Prelude.{
  ℕ, zero, suc, ◌+◌, ◌-◌, ◌%◌, ◌^◌, Bool, true, false, Option, none, some, List, [], ◌∷◌, ◌++◌,
  ◌==◌, if◌then◌else◌, replicate,
}

-- `mapped_virt_addresses_t` and `thread_mappings_t`.
pub record Mapping : Type 0 where
  pub virt_address : ℕ
  pub flag : ℕ
  pub used : Bool

abbrev pub unused : Mapping
unused = record { virt_address = 0; flag = 0; used = false }

pub record Mappings : Type 0 where
  pub mapped_virt_addresses_array : List Mapping
  pub num_mappings : ℕ
  pub max_mappings : ℕ

abbrev pub slot_behind : Mapping → Option (ℕ × List Mapping) → Option (ℕ × List Mapping)
slot_behind e none = none
slot_behind e (some (i, es)) = some (i, e ∷ es)

-- The loop that takes the first unused slot of the array: its index, and the array after.
unfoldable pub take_slot : (index virt_address : ℕ) → List Mapping → Option (ℕ × List Mapping)
take_slot index virt_address [] = none
take_slot index virt_address (e ∷ rest) =
    let later = take_slot (index + 1) virt_address rest in
    if e.used
    then slot_behind e later
    else some (index, record e { virt_address = virt_address; used = true } ∷ rest)

-- A full array grows by 8 unused slots.
unfoldable pub grow : Mappings → Mappings
grow t =
    if t.num_mappings == t.max_mappings
    then (record {
      mapped_virt_addresses_array = t.mapped_virt_addresses_array ++ replicate 8 unused;
      num_mappings = t.num_mappings;
      max_mappings = t.max_mappings + 8;
    })
    else t

abbrev pub with_slot : Mappings → Option (ℕ × List Mapping) → ℕ × Mappings
with_slot t none = (0, grow t)
with_slot t (some (i, es)) =
    (i, grow (record t { mapped_virt_addresses_array = es; num_mappings = t.num_mappings + 1 }))

-- The bookkeeping of `map_page`: the index of the slot, or 0 if no slot was free.
unfoldable pub record_mapping : ℕ → Mappings → ℕ × Mappings
unfolding take_slot grow
record_mapping virt_address t = with_slot t (take_slot 0 virt_address t.mapped_virt_addresses_array)

abbrev pub drop_behind : Mapping → Option (List Mapping) → Option (List Mapping)
drop_behind e none = none
drop_behind e (some es) = some (e ∷ es)

-- The first slot that records the address, used or not, is emptied; `none` if there is none.
unfoldable pub drop_slot : ℕ → List Mapping → Option (List Mapping)
drop_slot virt_address [] = none
drop_slot virt_address (e ∷ rest) =
    let later = drop_slot virt_address rest in
    if e.virt_address == virt_address then some (unused ∷ rest) else drop_behind e later

abbrev pub without_slot : Mappings → Option (List Mapping) → Mappings
without_slot t none = t
without_slot t (some es) = record t {
  mapped_virt_addresses_array = es;
  num_mappings = (t.num_mappings + 2 ^ 64 - 1) % 2 ^ 64;
}

-- The bookkeeping of `unmap_page`.
unfoldable pub forget_mapping : ℕ → Mappings → Mappings
unfolding drop_slot
forget_mapping virt_address t =
    without_slot t (drop_slot virt_address t.mapped_virt_addresses_array)

-- `mapped_virt_addresses_array[index].flag = flag`.
abbrev pub set_flag : (index flag : ℕ) → List Mapping → List Mapping
set_flag index flag [] = []
set_flag zero flag (e ∷ rest) = record e { flag = flag } ∷ rest
set_flag (suc index) flag (e ∷ rest) = e ∷ set_flag index flag rest
