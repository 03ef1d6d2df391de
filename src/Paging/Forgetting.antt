-- ===== src/Paging/Forgetting.antt =====
-- The bookkeeping of `unmap_page`: the slot of the address is emptied.
use willow_os.Prelude.{ℕ, ◌+◌, ◌≡◌, ◌≢◌, Option, none, some, List, [], ◌∷◌, length}
use willow_os.Paging.{Mapping}
use willow_os.Paging.Slots.{count_used, Blank}

-- No slot records the address.
abbrev pub NotRecorded : (virt_address : ℕ) → List Mapping → Type 0
NotRecorded virt_address [] = Unit {0}
NotRecorded virt_address (e ∷ rest) =
    (e.virt_address ≢ virt_address) × NotRecorded virt_address rest

-- What the search for the address does to the array.
abbrev Drops : (virt_address : ℕ) → List Mapping → Option (List Mapping) → Type 0
Drops virt_address es none = NotRecorded virt_address es
Drops virt_address es (some es') =
    (count_used es' + 1 ≡ count_used es) × (length es' ≡ length es) × Blank es'
