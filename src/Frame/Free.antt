-- ===== src/Frame/Free.antt =====
-- Which frames are free, described without the loops.
use willow_os.Prelude.{
  ℕ, ◌+◌, ◌-◌, ◌*◌, ◌/◌, ◌%◌, ◌≤◌, Bool, false, List, [], ◌∷◌, ◌==◌, ◌&&◌, ◌||◌, ltb, leb,
}
use willow_os.Frame.{Region}

-- The address is that of a whole frame of the region.
abbrev pub is_frame_of : Region → ℕ → Bool
is_frame_of r a =
    leb r.base a && ltb a (r.base + r.length / 4096 * 4096) && (a - r.base) % 4096 == 0

abbrev pub is_free_in : Region → ℕ → Bool
is_free_in r a = r.type == 0 && is_frame_of r a && r.frame_bitmap ((a - r.base) / 4096) == 0

-- The address is that of a free frame of a usable region.
abbrev pub is_free : List Region → ℕ → Bool
is_free [] a = false
is_free (r ∷ rest) a = is_free_in r a || is_free rest a

-- The regions lie in order from `low` on, with at least `gap` bytes between two of them.
abbrev pub InOrder : (gap low : ℕ) → List Region → Type 0
InOrder gap low [] = Unit {0}
InOrder gap low (r ∷ rest) = (low ≤ r.base) × InOrder gap (r.base + r.length + gap) rest
