-- ===== src/Process/Tables.antt =====
-- The page table of a new thread, as create_new_userspace_page_table of
-- limine-c-template-x86-64/kernel/src/scheduler.c makes it.
use willow_os.Prelude.{
  ℕ, zero, suc, ◌+◌, ◌*◌, ◌%◌, ◌^◌, ◌≤◌, ◌<◌, ◌≡◌, ◌≢◌, ◌∙◌, refl, ◌⊎◌, inl, inr, Bool, true, false,
  Option, none, some, ◌==◌, ◌&&◌, leb, ltb, if◌then◌else◌, arith,
}
use willow_os.Frame.{Machine, Grant, granted, alloc_regions, alloc_frame}
use willow_os.Paging.{slot, write}
use willow_os.Process.{clear_entries, copy_entries, create_new_userspace_page_table}

clear_entries-outside :
    (k i cr3 a : ℕ) (words : ℕ → ℕ)
    → (a < cr3 + 8 * i) ⊎ (cr3 + 8 * (i + k) ≤ a)
    → clear_entries k i cr3 words a ≡ words a
unfolding clear_entries
clear_entries-outside zero i cr3 a words off = refl
clear_entries-outside (suc k) i cr3 a words off =
    clear_entries-outside k (i + 1) cr3 a (write words (slot cr3 i) 0) (onward off) ∙ here off
  where
    onward :
        (a < cr3 + 8 * i) ⊎ (cr3 + 8 * (i + suc k) ≤ a)
        → (a < cr3 + 8 * (i + 1)) ⊎ (cr3 + 8 * (i + 1 + k) ≤ a)
    onward (inl h) = inl (omega arith)
    onward (inr h) = inr (omega arith)

    here : (a < cr3 + 8 * i) ⊎ (cr3 + 8 * (i + suc k) ≤ a) → write words (slot cr3 i) 0 a ≡ words a
    here (inl h) = ground arith
    here (inr h) = ground arith

clear_entries-inside :
    (k i j cr3 : ℕ) (words : ℕ → ℕ)
    → i ≤ j
    → j < i + k
    → clear_entries k i cr3 words (slot cr3 j) ≡ 0
unfolding clear_entries
clear_entries-inside zero i j cr3 words low high = absurd (omega arith)
clear_entries-inside (suc k) i j cr3 words low high =
    split (j == i) refl (clear_entries-inside k (i + 1) j cr3 (write words (slot cr3 i) 0))
  where
    split :
        (b : Bool)
        → (j == i) ≡ b
        → (i + 1 ≤ j
            → j < i + 1 + k
            → clear_entries k (i + 1) cr3 (write words (slot cr3 i) 0) (slot cr3 j) ≡ 0)
        → clear_entries k (i + 1) cr3 (write words (slot cr3 i) 0) (slot cr3 j) ≡ 0
    split true e later =
        clear_entries-outside k (i + 1) cr3 (slot cr3 j) (write words (slot cr3 i) 0)
          (inl (ground arith))
        ∙ ground arith
    split false e later = later (ground arith) (ground arith)

copy_entries-outside :
    (k i cr3 pml4 a : ℕ) (words : ℕ → ℕ)
    → (a < cr3 + 8 * i) ⊎ (cr3 + 8 * (i + k) ≤ a)
    → copy_entries k i cr3 pml4 words a ≡ words a
unfolding copy_entries
copy_entries-outside zero i cr3 pml4 a words off = refl
copy_entries-outside (suc k) i cr3 pml4 a words off =
    copy_entries-outside k (i + 1) cr3 pml4 a (write words (slot cr3 i) (words (slot pml4 i)))
      (onward off)
    ∙ here off
  where
    onward :
        (a < cr3 + 8 * i) ⊎ (cr3 + 8 * (i + suc k) ≤ a)
        → (a < cr3 + 8 * (i + 1)) ⊎ (cr3 + 8 * (i + 1 + k) ≤ a)
    onward (inl h) = inl (omega arith)
    onward (inr h) = inr (omega arith)

    here :
        (a < cr3 + 8 * i) ⊎ (cr3 + 8 * (i + suc k) ≤ a)
        → write words (slot cr3 i) (words (slot pml4 i)) a ≡ words a
    here (inl h) = ground arith
    here (inr h) = ground arith

-- Two tables that do not meet.
abbrev pub Separate : (pml4 cr3 : ℕ) → Type 0
Separate pml4 cr3 = (pml4 + 4096 ≤ cr3) ⊎ (cr3 + 4096 ≤ pml4)

slot-ne : (pml4 cr3 i j : ℕ) → Separate pml4 cr3 → i < 512 → j < 512 → slot pml4 j ≢ slot cr3 i
slot-ne pml4 cr3 i j (inl h) bi bj e = omega arith
slot-ne pml4 cr3 i j (inr h) bi bj e = omega arith

copy_entries-inside :
    (k i j cr3 pml4 : ℕ) (words : ℕ → ℕ)
    → Separate pml4 cr3
    → i + k ≤ 512
    → i ≤ j
    → j < i + k
    → copy_entries k i cr3 pml4 words (slot cr3 j) ≡ words (slot pml4 j)
unfolding copy_entries
copy_entries-inside zero i j cr3 pml4 words apart fits low high = absurd (omega arith)
copy_entries-inside (suc k) i j cr3 pml4 words apart fits low high = split (j == i) refl (
    copy_entries-inside k (i + 1) j cr3 pml4 (write words (slot cr3 i) (words (slot pml4 i))) apart
      (omega arith))
  where
    words' : ℕ → ℕ
    words' = write words (slot cr3 i) (words (slot pml4 i))

    split :
        (b : Bool)
        → (j == i) ≡ b
        → (i + 1 ≤ j
            → j < i + 1 + k
            → copy_entries k (i + 1) cr3 pml4 words' (slot cr3 j) ≡ words' (slot pml4 j))
        → copy_entries k (i + 1) cr3 pml4 words' (slot cr3 j) ≡ words (slot pml4 j)
    split true e later =
        let same : j ≡ i = ground arith in
        copy_entries-outside k (i + 1) cr3 pml4 (slot cr3 j) words' (inl (ground arith))
        ∙ rw same (ground arith)
    split false e later =
        later (ground arith) (ground arith)
        ∙ (let ne = slot-ne pml4 cr3 i j apart (omega arith) (omega arith) in ground arith)

-- The words after the two loops of create_new_userspace_page_table.
abbrev pub filled : (cr3 pml4 : ℕ) → (ℕ → ℕ) → ℕ → ℕ
filled cr3 pml4 words = copy_entries 256 256 cr3 pml4 (clear_entries 512 0 cr3 words)

filled-low : (cr3 pml4 i : ℕ) (words : ℕ → ℕ) → i < 256 → filled cr3 pml4 words (slot cr3 i) ≡ 0
filled-low cr3 pml4 i words below =
    copy_entries-outside 256 256 cr3 pml4 (slot cr3 i) (clear_entries 512 0 cr3 words)
      (inl (omega arith))
    ∙ clear_entries-inside 512 0 i cr3 words (omega arith) (omega arith)

filled-high :
    (cr3 pml4 i : ℕ) (words : ℕ → ℕ)
    → Separate pml4 cr3
    → 256 ≤ i
    → i < 512
    → filled cr3 pml4 words (slot cr3 i) ≡ words (slot pml4 i)
filled-high cr3 pml4 i words apart low high =
    copy_entries-inside 256 256 i cr3 pml4 (clear_entries 512 0 cr3 words) apart (omega arith) low
      (omega arith)
    ∙ clear_entries-outside 512 0 cr3 (slot pml4 i) words (off apart)
  where
    off : Separate pml4 cr3 → (slot pml4 i < cr3 + 8 * 0) ⊎ (cr3 + 8 * (0 + 512) ≤ slot pml4 i)
    off (inl h) = inl (omega arith)
    off (inr h) = inr (omega arith)

filled-outside :
    (cr3 pml4 a : ℕ) (words : ℕ → ℕ)
    → (a < cr3) ⊎ (cr3 + 4096 ≤ a)
    → filled cr3 pml4 words a ≡ words a
filled-outside cr3 pml4 a words (inl h) =
    copy_entries-outside 256 256 cr3 pml4 a (clear_entries 512 0 cr3 words) (inl (omega arith))
    ∙ clear_entries-outside 512 0 cr3 a words (inl (omega arith))
filled-outside cr3 pml4 a words (inr h) =
    copy_entries-outside 256 256 cr3 pml4 a (clear_entries 512 0 cr3 words) (inr (omega arith))
    ∙ clear_entries-outside 512 0 cr3 a words (inr (omega arith))

-- A frame that is handed out is cleared, and no word outside it changes.
abbrev Clears : Machine → ℕ × Machine → Type 0
Clears m (a, m') =
    ((w : ℕ) → (w < a + m.hhdm_offset) ⊎ (a + m.hhdm_offset + 4096 ≤ w) → m'.words w ≡ m.words w)
    × (m'.hhdm_offset ≡ m.hhdm_offset)

outside_page :
    (page w v : ℕ)
    → (w < page) ⊎ (page + 4096 ≤ w)
    → (if leb page w && ltb w (page + 4096) then 0 else v) ≡ v
outside_page page w v (inl h) = ground arith
outside_page page w v (inr h) = ground arith

alloc_frame-Clears : (m : Machine) → Clears m (alloc_frame m)
unfolding alloc_frame
alloc_frame-Clears m = split (alloc_regions m.regions)
  where
    split : (o : Option Grant) → Clears m (granted m o)
    split none = (λ w off. refl, refl)
    split (some g) = (λ w off. outside_page (g.address + m.hhdm_offset) w (m.words w) off, refl)

pub off_page :
    (table cr3 i : ℕ)
    → Separate table cr3
    → i < 512
    → (slot table i < cr3) ⊎ (cr3 + 4096 ≤ slot table i)
off_page table cr3 i (inl h) b = inl (omega arith)
off_page table cr3 i (inr h) b = inr (omega arith)

-- The new table at `cr3` has no entry in the lower half and those of `pml4` in the upper half, and
-- nothing else has changed.
abbrev pub Extends : (pml4 : ℕ) → Machine → ℕ × Machine → Type 0
Extends pml4 m (cr3, m') =
    ((i : ℕ) → i < 256 → m'.words (slot cr3 i) ≡ 0)
    × ((i : ℕ) → 256 ≤ i → i < 512 → m'.words (slot cr3 i) ≡ m.words (slot pml4 i))
    × ((a : ℕ) → (a < cr3) ⊎ (cr3 + 4096 ≤ a) → m'.words a ≡ m.words a)
    × (m'.hhdm_offset ≡ m.hhdm_offset)

module _ (pml4 : ℕ) (m : Machine) (fits : (alloc_frame m).0 + m.hhdm_offset < 2 ^ 64)
    (apart : Separate pml4 (create_new_userspace_page_table pml4 m).0) where
  -- Where the frame's address in the window does not wrap around and the frame is not that of the
  -- kernel's table, a new address space has an empty lower half and the kernel's entries in the upper
  -- half, and no other word changes.
  pub create_new_userspace_page_table-Extends :
      Extends pml4 m (create_new_userspace_page_table pml4 m)
  unfolding create_new_userspace_page_table
  create_new_userspace_page_table-Extends = (
    λ i h. filled-low cr3 pml4 i words h,
    λ i low high.
        filled-high cr3 pml4 i words apart low high
        ∙ kept (slot pml4 i) (off_page pml4 cr3 i apart high),
    λ a off. filled-outside cr3 pml4 a words off ∙ kept a off,
    clears.1,
  )
    where
      cr3 : ℕ
      cr3 = ((alloc_frame m).0 + m.hhdm_offset) % 2 ^ 64

      words : ℕ → ℕ
      words = (alloc_frame m).1.words

      clears : Clears m (alloc_frame m)
      clears = alloc_frame-Clears m

      kept : (a : ℕ) → (a < cr3) ⊎ (cr3 + 4096 ≤ a) → words a ≡ m.words a
      kept a (inl h) = clears.0 a (inl (omega (arith, fits)))
      kept a (inr h) = clears.0 a (inr (omega (arith, fits)))
