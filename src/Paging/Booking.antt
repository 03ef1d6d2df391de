-- ===== src/Paging/Booking.antt =====
-- The bookkeeping of `map_page`: a slot is taken and a full array grows.
use willow_os.Prelude.{
  ℕ, zero, suc, ◌+◌, ◌≤◌, ◌≡◌, refl, Bool, true, false, some, List, [], ◌∷◌, ◌++◌, ◌==◌,
  if◌then◌else◌, arith, length, length-append, replicate,
}
use willow_os.Paging.{Mapping, Mappings, unused, grow}
use willow_os.Paging.Slots.{count_used, Blank, IsTable, slot_at}

count_used-append : (es fs : List Mapping) → count_used (es ++ fs) ≡ count_used es + count_used fs
count_used-append [] fs = omega arith
count_used-append (e ∷ rest) fs = omega (arith, count_used-append rest fs)

Blank-append : (es fs : List Mapping) → Blank es → Blank fs → Blank (es ++ fs)
Blank-append [] fs b c = c
Blank-append (e ∷ rest) fs b c = (b.0, Blank-append rest fs b.1 c)

Blank-unused : (n : ℕ) → Blank (replicate n unused)
Blank-unused zero = tt
Blank-unused (suc n) = ((λ h. refl), Blank-unused n)

slot_at-append :
    (i : ℕ) (es fs : List Mapping) (e : Mapping)
    → slot_at i es ≡ some e
    → slot_at i (es ++ fs) ≡ some e
slot_at-append i [] fs e h = cc
slot_at-append zero (d ∷ rest) fs e h = h
slot_at-append (suc i) (d ∷ rest) fs e h = slot_at-append i rest fs e h

-- An array whose counters agree is a table once `grow` has run, and it keeps its slots.
pub grow-IsTable :
    (t : Mappings)
    → count_used t.mapped_virt_addresses_array ≡ t.num_mappings
    → length t.mapped_virt_addresses_array ≡ t.max_mappings
    → t.num_mappings ≤ t.max_mappings
    → Blank t.mapped_virt_addresses_array
    → IsTable (grow t)
      × ((i : ℕ) (e : Mapping)
          → slot_at i t.mapped_virt_addresses_array ≡ some e
          → slot_at i (grow t).mapped_virt_addresses_array ≡ some e)
unfolding grow
grow-IsTable t counted sized le b = split (t.num_mappings == t.max_mappings) refl
  where
    split :
        (full : Bool)
        → (t.num_mappings == t.max_mappings) ≡ full
        → (let t' =
              if full
              then (record {
                mapped_virt_addresses_array = t.mapped_virt_addresses_array ++ replicate 8 unused;
                num_mappings = t.num_mappings;
                max_mappings = t.max_mappings + 8;
              })
              else t in
            IsTable t'
            × ((i : ℕ) (e : Mapping)
                → slot_at i t.mapped_virt_addresses_array ≡ some e
                → slot_at i t'.mapped_virt_addresses_array ≡ some e))
    split true h = (
      record {
        counted =
            omega (
              arith,
              count_used-append t.mapped_virt_addresses_array (replicate 8 unused),
              counted,
            );
        sized =
            omega (arith, length-append t.mapped_virt_addresses_array (replicate 8 unused), sized);
        room = ground arith;
        blank = Blank-append t.mapped_virt_addresses_array (replicate 8 unused) b (Blank-unused 8);
      },
      λ i e at. slot_at-append i t.mapped_virt_addresses_array (replicate 8 unused) e at,
    )
    split false h =
        (record { counted = counted; sized = sized; room = ground arith; blank = b }, λ i e at. at)
