-- ===== src/Paging/Descent.antt =====
-- What one level of `map_page` leaves in memory.
use willow_os.Prelude.{
  ℕ, ◌+◌, ◌%◌, ◌^◌, ◌≤◌, ◌<◌, ◌≡◌, ◌≢◌, refl, Bool, true, false, ◌==◌, if◌then◌else◌, arith, ◌⊎◌,
  bit_or, bit_or-page_of_lt, bit_or_odd,
}
use willow_os.Frame.{Machine, alloc_frame}
use willow_os.Frame.Layout.{IsLayout, IsPage, Allocated, alloc_frame-Allocated}
use willow_os.Paging.{table_of, slot, write, descend}

-- The layout of physical memory that the walks rely on.
pub record IsSound (m : Machine) : Type 0 where
  pub layout : IsLayout m.hhdm_offset m.regions
  pub window : m.hhdm_offset < 2 ^ 64

-- The address lies outside the page.
abbrev pub Outside : (page a : ℕ) → Type 0
Outside page a = (a < page) ⊎ (page + 4096 ≤ a)

-- After one level: the entry stands at its slot and is present, and outside the table that it
-- points to nothing else has changed.
pub record Descends (table index hhdm : ℕ) (m : Machine) (entry : ℕ) (m' : Machine) : Type 0 where
  pub sound : IsSound m'
  pub window : m'.hhdm_offset ≡ hhdm
  pub stands : m'.words (slot table index) ≡ entry
  pub present : entry % 2 ≡ 1
  pub frame :
      (a : ℕ) → a ≢ slot table index → Outside (table_of entry hhdm) a → m'.words a ≡ m.words a

table_of-bit_or : (hhdm a p : ℕ) → IsPage hhdm a → p < 4096 → table_of (bit_or a p) hhdm ≡ a + hhdm
table_of-bit_or hhdm a p page small = omega (arith, bit_or-page_of_lt a p small)

pub descend-Descends :
    (table index permissions hhdm : ℕ) (m : Machine)
    → IsSound m
    → m.hhdm_offset ≡ hhdm
    → permissions < 4096
    → permissions % 2 ≡ 1
    → Descends table index hhdm m
        (descend table index permissions m).0
        (descend table index permissions m).1
unfolding descend
descend-Descends table index permissions hhdm m sound same small odd =
    split (m.words (slot table index) % 2 == 0) refl (alloc_frame m)
      (alloc_frame-Allocated m sound.layout sound.window)
  where
    new_entry : ℕ × Machine → ℕ
    new_entry r = bit_or r.0 permissions

    made : ℕ × Machine → ℕ × Machine
    made r =
        (new_entry r, record (r.1) { words = write r.1.words (slot table index) (new_entry r) })

    moved :
        (r : ℕ × Machine)
        → Allocated m r
        → (a : ℕ) → Outside (table_of (new_entry r) hhdm) a
        → (a < r.0 + m.hhdm_offset) ⊎ (r.0 + m.hhdm_offset + 4096 ≤ a)
    moved r h a out =
        omega (arith, table_of-bit_or hhdm r.0 permissions (omega arith, omega arith) small)

    split :
        (b : Bool)
        → (m.words (slot table index) % 2 == 0) ≡ b
        → (r : ℕ × Machine) → Allocated m r
        → Descends table index hhdm m
            (if b then made r else (m.words (slot table index), m)).0
            (if b then made r else (m.words (slot table index), m)).1
    split false e r h = record {
      sound = sound;
      window = same;
      stands = refl;
      present = ground arith;
      frame = λ a ne out. refl;
    }
    split true e r h = record {
      sound = record { layout = rw h.window h.layout; window = omega arith };
      window = omega arith;
      stands = ground arith;
      present = bit_or_odd r.0 permissions odd;
      frame = λ a ne out. ground (arith, h.frame a (moved r h a out));
    }
