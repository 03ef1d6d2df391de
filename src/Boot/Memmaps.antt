-- ===== src/Boot/Memmaps.antt =====
-- The frames that `init_memmaps` makes free.
use willow_os.Prelude.{
  ℕ, zero, suc, ◌+◌, ◌-◌, ◌/◌, ◌%◌, ◌^◌, ◌≤◌, ◌<◌, ◌≡◌, refl, Bool, true, false, some, List, [],
  ◌∷◌, ◌==◌, ◌&&◌, ◌||◌, ltb, leb, if◌then◌else◌, arith, length,
}
use willow_os.Frame.{Region, set_bitmap}
use willow_os.Frame.Free.{is_frame_of, is_free_in, is_free}
use willow_os.Boot.{
  MemmapEntry, entry_region, clear_frames, fill_region, fill_regions, init_memmaps,
}

-- The address is that of a whole frame of a usable entry.
abbrev pub is_usable : List MemmapEntry → ℕ → Bool
is_usable [] a = false
is_usable (e ∷ rest) a =
    (e.type % 2 ^ 8 == 0 && is_frame_of (entry_region (λ i. 0) e) a) || is_usable rest a

clear_frames-at :
    (k i j : ℕ) (r : Region)
    → (clear_frames k i r).frame_bitmap j
      ≡ (if leb i j && ltb j (i + k) then 0 else r.frame_bitmap j)
unfolding clear_frames
clear_frames-at zero i j r = ground arith
clear_frames-at (suc k) i j r = ground (arith, clear_frames-at k (i + 1) j (set_bitmap r i 0))

clear_frames-same :
    (k i : ℕ) (r : Region)
    → ((clear_frames k i r).base ≡ r.base)
      × ((clear_frames k i r).length ≡ r.length)
      × ((clear_frames k i r).type ≡ r.type)
unfolding clear_frames
clear_frames-same zero i r = (refl, refl, refl)
clear_frames-same (suc k) i r = clear_frames-same k (i + 1) (set_bitmap r i 0)

-- The entry's bitmap fits into the region, and its base too.
abbrev pub Fits : List MemmapEntry → Type 0
Fits [] = Unit {0}
Fits (e ∷ rest) = (e.length / 4096 < 600000) × Fits rest

abbrev filled : (before : ℕ → ℕ) → MemmapEntry → Region
filled before e =
    set_bitmap (clear_frames (e.length / 4096) 0 (entry_region before e)) (e.length / 4096) 2

fill_region-filled :
    (before : ℕ → ℕ) (e : MemmapEntry)
    → e.length / 4096 < 600000
    → fill_region before e ≡ some (filled before e)
unfolding fill_region
fill_region-filled before e fits = rw small refl
  where
    small : ltb (e.length / 4096) 600000 ≡ true
    small = ground arith

is_free_in-filled :
    (before : ℕ → ℕ) (e : MemmapEntry) (a : ℕ)
    → is_free_in (filled before e) a
      ≡ (e.type % 2 ^ 8 == 0 && is_frame_of (entry_region (λ i. 0) e) a)
is_free_in-filled before e a =
    let (base, length, type) = clear_frames-same (e.length / 4096) 0 (entry_region before e) in
    rw (base, length, type)
      (ground
        (arith, clear_frames-at (e.length / 4096) 0 ((a - e.base) / 4096) (entry_region before e)))

fill_regions-free :
    (before : ℕ → ℕ) (entries : List MemmapEntry)
    → Fits entries
    → (rs : List Region) × (fill_regions before entries ≡ some rs)
      × ((a : ℕ) → is_free rs a ≡ is_usable entries a)
unfolding fill_regions
fill_regions-free before [] fits = ([], refl, λ a. refl)
fill_regions-free before (e ∷ rest) fits =
    let (rs, eq, free) = fill_regions-free before rest fits.1 in
    (
      filled before e ∷ rs,
      rw (fill_region-filled before e fits.0, eq) refl,
      λ a. rw (is_free_in-filled before e a, free a) refl,
    )

-- With at least one and at most 32 entries whose bitmaps fit, `init_memmaps` succeeds whatever the
-- bitmaps held, and the free frames are exactly the whole frames of the usable entries.
pub init_memmaps-free :
    (before : ℕ → ℕ) (entries : List MemmapEntry)
    → 1 ≤ length entries
    → length entries ≤ 32
    → Fits entries
    → (rs : List Region) × (init_memmaps before entries ≡ some rs)
      × ((a : ℕ) → is_free rs a ≡ is_usable entries a)
unfolding init_memmaps
init_memmaps-free before entries some_entries few fits =
    rw (some_entry, at_most) (fill_regions-free before entries fits)
  where
    some_entry : leb 1 (length entries) ≡ true
    some_entry = ground arith

    at_most : leb (length entries) 32 ≡ true
    at_most = ground arith
