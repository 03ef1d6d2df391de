-- ===== src/Frame/Alloc.antt =====
-- What `alloc_frame` returns and marks, against the set of free frames.
use willow_os.Prelude.{
  ℕ, ◌+◌, ◌≤◌, ◌<◌, ◌≡◌, true, false, Option, none, some, List, ◌==◌, ◌&&◌, not, ◌⊎◌,
}
use willow_os.Frame.{Region, Grant, Machine, clear_page}
use willow_os.Frame.Free.{is_free}

-- What the scan of `k` frames from `i` on finds.
abbrev Found : (k i : ℕ) → Region → Option ℕ → Type 0
Found k i r none = (j : ℕ) → i ≤ j → j < i + k → (r.frame_bitmap j == 0 && r.type == 0) ≡ false
Found k i r (some x) = (i ≤ x) × (x < i + k) × (r.frame_bitmap x ≡ 0) × (r.type ≡ 0)

-- The outcome of the search through the regions.
abbrev pub Grants : List Region → Option Grant → Type 0
Grants rs none = (a : ℕ) → is_free rs a ≡ false
Grants rs (some g) =
    (is_free rs g.address ≡ true)
    × ((a : ℕ) → is_free g.regions a ≡ (is_free rs a && not (a == g.address)))

-- A frame was free and is not any more, it is cleared, and nothing else has changed; or no frame
-- was free, and the result is 0.
abbrev pub Allocates : Machine → ℕ × Machine → Type 0
Allocates m (a, m') =
    (((x : ℕ) → is_free m.regions x ≡ false) × (a ≡ 0) × (m' ≡ m))
    ⊎ ((is_free m.regions a ≡ true)
        × ((x : ℕ) → is_free m'.regions x ≡ (is_free m.regions x && not (x == a)))
        × ((w : ℕ) → m'.words w ≡ clear_page (a + m.hhdm_offset) m.words w)
        × (m'.hhdm_offset ≡ m.hhdm_offset))
