-- ===== src/Frame/Layout.antt =====
-- A layout of physical memory that `alloc_frame` keeps, and where its frames lie.
use willow_os.Prelude.{
  ℕ, zero, suc, ◌+◌, ◌/◌, ◌%◌, ◌^◌, ◌≤◌, ◌<◌, ◌≡◌, refl, Bool, true, false, Option, none, some,
  List, [], ◌∷◌, ◌&&◌, ◌==◌, if◌then◌else◌, arith, ◌⊎◌,
}
use willow_os.Frame.{
  Region, scan_region, Grant, grant_behind, grant_at, alloc_regions, Machine, granted, alloc_frame,
}

-- Each region begins at a page boundary and lies in the window of physical memory at `hhdm_offset`.
abbrev pub IsLayout : (hhdm_offset : ℕ) → List Region → Type 0
IsLayout hhdm [] = Unit {0}
IsLayout hhdm (r ∷ rest) =
    (r.base % 4096 ≡ 0) × (r.base + r.length + hhdm ≤ 2 ^ 64) × IsLayout hhdm rest

-- A page of physical memory that the window shows.
abbrev pub IsPage : (hhdm_offset a : ℕ) → Type 0
IsPage hhdm a = (a % 4096 ≡ 0) × (a + hhdm < 2 ^ 64)

abbrev Keeps : ℕ → Option Grant → Type 0
Keeps hhdm none = Unit {0}
Keeps hhdm (some g) = IsLayout hhdm g.regions × IsPage hhdm g.address

abbrev Bounded : ℕ → Option ℕ → Type 0
Bounded n none = Unit {0}
Bounded n (some i) = i < n

scan_region-lt : (k i : ℕ) (r : Region) → Bounded (i + k) (scan_region k i r)
unfolding scan_region
scan_region-lt zero i r = tt
scan_region-lt (suc k) i r =
    split (r.frame_bitmap i == 0 && r.type == 0) (scan_region k (i + 1) r)
      (scan_region-lt k (i + 1) r)
  where
    split :
        (b : Bool) (o : Option ℕ)
        → Bounded (i + 1 + k) o
        → Bounded (i + suc k) (if b then some i else o)
    split true o h = omega arith
    split false none h = tt
    split false (some x) h = omega arith

alloc_regions-Keeps :
    (hhdm : ℕ) (rs : List Region) → IsLayout hhdm rs → Keeps hhdm (alloc_regions rs)
unfolding alloc_regions
alloc_regions-Keeps hhdm [] h = tt
alloc_regions-Keeps hhdm (r ∷ rest) h =
    split (alloc_regions rest) (alloc_regions-Keeps hhdm rest h.2)
      (scan_region (r.length / 4096) 0 r) (scan_region-lt (r.length / 4096) 0 r)
  where
    split :
        (later : Option Grant)
        → Keeps hhdm later
        → (o : Option ℕ) → Bounded (0 + r.length / 4096) o
        → Keeps hhdm (grant_at r rest (grant_behind r later) o)
    split none k none b = tt
    split (some g) k none b = ((h.0, h.1, k.0), k.1)
    split later k (some i) b = (h, (omega arith, omega arith))

-- A page of the window, or 0, has been returned; the layout is the same, and outside the page
-- nothing has changed.
pub record Allocated (m : Machine) (r : ℕ × Machine) : Type 0 where
  pub layout : IsLayout m.hhdm_offset r.1.regions
  pub page : IsPage m.hhdm_offset r.0
  pub window : r.1.hhdm_offset ≡ m.hhdm_offset
  pub frame :
      (a : ℕ)
      → (a < r.0 + m.hhdm_offset) ⊎ (r.0 + m.hhdm_offset + 4096 ≤ a)
      → r.1.words a ≡ m.words a

-- On a layout in the window, with the window's start below 2^64, `alloc_frame` keeps both;
-- what it returns, 0 included, is the start of a page inside the window; and no word outside that page
-- has changed.
pub alloc_frame-Allocated :
    (m : Machine)
    → IsLayout m.hhdm_offset m.regions
    → m.hhdm_offset < 2 ^ 64
    → Allocated m (alloc_frame m)
unfolding alloc_frame
alloc_frame-Allocated m h small =
    split (alloc_regions m.regions) (alloc_regions-Keeps m.hhdm_offset m.regions h)
  where
    split : (o : Option Grant) → Keeps m.hhdm_offset o → Allocated m (granted m o)
    split none k = record {
      layout = h;
      page = (refl, omega arith);
      window = refl;
      frame = λ a out. refl;
    }
    split (some g) k = record {
      layout = k.0;
      page = k.1;
      window = refl;
      frame = λ a out. ground arith;
    }
