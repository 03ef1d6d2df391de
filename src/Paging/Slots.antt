-- ===== src/Paging/Slots.antt =====
-- The array of mappings that `map_page` and `unmap_page` keep for the running thread: the search for
-- an unused slot.
use native.Mathlib.Nat.{add-zero}
use willow_os.Prelude.{
  ℕ, zero, suc, ◌+◌, ◌<◌, ◌≡◌, ◌≢◌, refl, Bool, true, false, Option, none, some, List, [], ◌∷◌,
  if◌then◌else◌, arith, length, ap,
}
use willow_os.Paging.{Mapping, Mappings, slot_behind, take_slot}

abbrev pub count_used : List Mapping → ℕ
count_used [] = 0
count_used (e ∷ rest) = (if e.used then 1 else 0) + count_used rest

-- An unused slot records address 0.
abbrev pub Blank : List Mapping → Type 0
Blank [] = Unit {0}
Blank (e ∷ rest) = (e.used ≡ false → e.virt_address ≡ 0) × Blank rest

-- The counters agree with the array, and a slot is left.
pub record IsTable (t : Mappings) : Type 0 where
  pub counted : count_used t.mapped_virt_addresses_array ≡ t.num_mappings
  pub sized : length t.mapped_virt_addresses_array ≡ t.max_mappings
  pub room : t.num_mappings < t.max_mappings
  pub blank : Blank t.mapped_virt_addresses_array

abbrev pub slot_at : ℕ → List Mapping → Option Mapping
slot_at i [] = none
slot_at zero (e ∷ rest) = some e
slot_at (suc i) (e ∷ rest) = slot_at i rest

-- The slot at `i` was unused and now records the address; the others are the same.
pub record Takes (virt_address i : ℕ) (es es' : List Mapping) : Type 0 where
  pub count : count_used es' ≡ count_used es + 1
  pub same_length : length es' ≡ length es
  pub blank : Blank es → Blank es'
  pub taken :
      (e : Mapping) × (slot_at i es ≡ some e)
      × (e.used ≡ false)
      × (slot_at i es' ≡ some (record e { virt_address = virt_address; used = true }))
  pub others : (j : ℕ) → j ≢ i → slot_at j es' ≡ slot_at j es

Takes-here :
    (virt_address : ℕ) (e : Mapping) (rest : List Mapping)
    → e.used ≡ false
    → Takes virt_address 0 (e ∷ rest) (record e { virt_address = virt_address; used = true } ∷ rest)
Takes-here virt_address e rest free = record {
  count = ground arith;
  same_length = refl;
  blank = λ b. (λ h. cc, b.1);
  taken = (e, refl, free, refl);
  others = other;
}
  where
    other :
        (j : ℕ)
        → j ≢ 0
        → slot_at j (record e { virt_address = virt_address; used = true } ∷ rest)
          ≡ slot_at j (e ∷ rest)
    other zero ne = absurd (ne refl)
    other (suc j) ne = refl

Takes-behind :
    (virt_address i : ℕ) (e : Mapping) (rest rest' : List Mapping)
    → Takes virt_address i rest rest'
    → Takes virt_address (suc i) (e ∷ rest) (e ∷ rest')
Takes-behind virt_address i e rest rest' t = record {
  count = omega (arith, t.count);
  same_length = ap suc t.same_length;
  blank = λ b. (b.0, t.blank b.1);
  taken = t.taken;
  others = other;
}
  where
    other : (j : ℕ) → j ≢ suc i → slot_at j (e ∷ rest') ≡ slot_at j (e ∷ rest)
    other zero ne = refl
    other (suc j) ne = t.others j (λ h. ne (ap suc h))

abbrev pub Slot : (base virt_address : ℕ) → List Mapping → Option (ℕ × List Mapping) → Type 0
Slot base virt_address es r =
    (i : ℕ) × (es' : List Mapping) × (r ≡ some (base + i, es')) × Takes virt_address i es es'

Slot-behind :
    (base virt_address : ℕ) (e : Mapping) (rest : List Mapping) (later : Option (ℕ × List Mapping))
    → Slot (base + 1) virt_address rest later
    → Slot base virt_address (e ∷ rest) (slot_behind e later)
Slot-behind base virt_address e rest later (i, rest', eq, t) = (
  suc i,
  e ∷ rest',
  rw eq (ap (λ k. some (k, e ∷ rest')) (omega arith)),
  Takes-behind virt_address i e rest rest' t,
)

pub take_slot-Takes :
    (base virt_address : ℕ) (es : List Mapping)
    → count_used es < length es
    → Slot base virt_address es (take_slot base virt_address es)
unfolding take_slot
take_slot-Takes base virt_address [] h = absurd (omega arith)
take_slot-Takes base virt_address (e ∷ rest) h =
    split e.used refl (take_slot (base + 1) virt_address rest)
      (λ used. take_slot-Takes (base + 1) virt_address rest (fewer used))
  where
    fewer : e.used ≡ true → count_used rest < length rest
    fewer used = ground arith

    split :
        (used : Bool)
        → e.used ≡ used
        → (later : Option (ℕ × List Mapping))
        → (e.used ≡ true → Slot (base + 1) virt_address rest later)
        → Slot base virt_address (e ∷ rest) (
            if used
            then slot_behind e later
            else some (base, record e { virt_address = virt_address; used = true } ∷ rest))
    split true is_used later ih = Slot-behind base virt_address e rest later (ih is_used)
    split false is_free later ih = (
      0,
      record e { virt_address = virt_address; used = true } ∷ rest,
      rw add-zero,
      Takes-here virt_address e rest is_free,
    )
