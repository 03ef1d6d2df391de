-- ===== src/Loader/Segments.antt =====
-- One segment of a program, as load_elf of limine-c-template-x86-64/kernel/src/loader.c fills it.
use willow_os.Prelude.{
  ℕ, ◌+◌, ◌-◌, ◌%◌, ◌^◌, ◌≤◌, ◌<◌, ◌≡◌, ◌∙◌, ap, refl, inl, inr, Bool, true, false, ltb,
  if◌then◌else◌, arith,
}
use willow_os.Memory.{Memory, memcpy, memset}
use willow_os.Memory.Disjoint.{Apart, memcpy-inside, memcpy-outside, memset-inside, memset-outside}
use willow_os.Loader.{Phdr, segment_page, fill_segment}

-- The bytes from the first page of a segment up to its end.
abbrev pub image_size : Phdr → ℕ
image_size p = p.p_memsz + p.p_vaddr % 4096

-- A segment is not larger in the file than in memory, ends below 2^64, and its image does not meet the
-- bytes that it has in the file.
pub record IsSegment (data_address : ℕ) (p : Phdr) : Type 0 where
  pub fits : p.p_filesz ≤ p.p_memsz
  pub bounded : p.p_vaddr + p.p_memsz < 2 ^ 64
  pub apart : Apart (segment_page p) (image_size p) (data_address + p.p_offset) p.p_filesz

-- The bytes of the file stand at the segment's address, and zeros behind them.
pub record Loaded (data_address : ℕ) (p : Phdr) (m m' : Memory) : Type 0 where
  pub copied : (i : ℕ) → i < p.p_filesz → m' (p.p_vaddr + i) ≡ m (data_address + p.p_offset + i)
  pub zeroed : (i : ℕ) → p.p_filesz ≤ i → i < p.p_memsz → m' (p.p_vaddr + i) ≡ 0

module _ (data_address : ℕ) (p : Phdr) (m : Memory) (ok : IsSegment data_address p) where
  cleared : Memory
  cleared = memset (segment_page p) 0 ((p.p_memsz + p.p_vaddr % 4096) % 2 ^ 64) m

  copied_over : Memory
  copied_over = memcpy p.p_vaddr (data_address + p.p_offset) p.p_filesz cleared

  wrapped : (p.p_memsz + p.p_vaddr % 4096) % 2 ^ 64 ≡ image_size p
  wrapped = omega (arith, ok.bounded)

  cleared_inside : (i : ℕ) → i < p.p_memsz → cleared (p.p_vaddr + i) ≡ 0
  unfolding cleared
  cleared_inside i below = rw wrapped (
      ap (memset (segment_page p) 0 (image_size p) m) (omega arith)
      ∙ memset-inside (segment_page p) 0 (image_size p) (p.p_vaddr % 4096 + i) m (omega arith))

  cleared_outside : (a : ℕ) → Apart (segment_page p) (image_size p) a 1 → cleared a ≡ m a
  unfolding cleared
  cleared_outside a off = rw wrapped (memset-outside (segment_page p) 0 (image_size p) a m off)

  source-Apart : Apart p.p_vaddr p.p_filesz (data_address + p.p_offset) p.p_filesz
  source-Apart = from ok.apart
    where
      from :
          Apart (segment_page p) (image_size p) (data_address + p.p_offset) p.p_filesz
          → Apart p.p_vaddr p.p_filesz (data_address + p.p_offset) p.p_filesz
      from (inl h) = inl (omega (arith, ok.fits))
      from (inr h) = inr (omega arith)

  copied_inside :
      (i : ℕ) → i < p.p_filesz → copied_over (p.p_vaddr + i) ≡ m (data_address + p.p_offset + i)
  unfolding copied_over
  copied_inside i below =
      memcpy-inside p.p_vaddr (data_address + p.p_offset) p.p_filesz i cleared source-Apart below
      ∙ cleared_outside (data_address + p.p_offset + i) (from ok.apart)
    where
      from :
          Apart (segment_page p) (image_size p) (data_address + p.p_offset) p.p_filesz
          → Apart (segment_page p) (image_size p) (data_address + p.p_offset + i) 1
      from (inl h) = inl (omega arith)
      from (inr h) = inr (omega arith)

  copied_outside : (a : ℕ) → Apart p.p_vaddr p.p_filesz a 1 → copied_over a ≡ cleared a
  unfolding copied_over
  copied_outside a off =
      memcpy-outside p.p_vaddr (data_address + p.p_offset) p.p_filesz a cleared source-Apart off

  -- What fill_segment returns when the test of its last branch has the value `b`.
  finished : (b : Bool) → Memory
  finished b =
      if b
      then memset (p.p_vaddr + p.p_filesz) 0 (p.p_memsz - p.p_filesz) copied_over
      else copied_over

  fill_segment-finished : fill_segment data_address p m ≡ finished (ltb p.p_filesz p.p_memsz)
  unfolding fill_segment finished copied_over cleared
  fill_segment-finished = refl

  finished_inside :
      (b : Bool) (i : ℕ)
      → i < p.p_filesz
      → finished b (p.p_vaddr + i) ≡ m (data_address + p.p_offset + i)
  unfolding finished
  finished_inside true i below =
      memset-outside (p.p_vaddr + p.p_filesz) 0 (p.p_memsz - p.p_filesz) (p.p_vaddr + i) copied_over
        (inr (omega arith))
      ∙ copied_inside i below
  finished_inside false i below = copied_inside i below

  finished_zeroed : (i : ℕ) → p.p_filesz ≤ i → i < p.p_memsz → finished true (p.p_vaddr + i) ≡ 0
  unfolding finished
  finished_zeroed i from below =
      ap (memset (p.p_vaddr + p.p_filesz) 0 (p.p_memsz - p.p_filesz) copied_over) (omega arith)
      ∙ memset-inside (p.p_vaddr + p.p_filesz) 0 (p.p_memsz - p.p_filesz) (i - p.p_filesz)
          copied_over (omega arith)

  finished_outside :
      (b : Bool) (a : ℕ) → Apart (segment_page p) (image_size p) a 1 → finished b a ≡ m a
  unfolding finished
  finished_outside true a (inl off) =
      memset-outside (p.p_vaddr + p.p_filesz) 0 (p.p_memsz - p.p_filesz) a copied_over
        (inl (omega (arith, ok.fits)))
      ∙ copied_outside a (inl (omega (arith, ok.fits)))
      ∙ cleared_outside a (inl off)
  finished_outside true a (inr off) =
      memset-outside (p.p_vaddr + p.p_filesz) 0 (p.p_memsz - p.p_filesz) a copied_over
        (inr (omega arith))
      ∙ copied_outside a (inr (omega arith))
      ∙ cleared_outside a (inr off)
  finished_outside false a (inl off) =
      copied_outside a (inl (omega (arith, ok.fits))) ∙ cleared_outside a (inl off)
  finished_outside false a (inr off) =
      copied_outside a (inr (omega arith)) ∙ cleared_outside a (inr off)

  -- The bytes outside the image stay.
  pub fill_segment_outside :
      (a : ℕ) → Apart (segment_page p) (image_size p) a 1 → fill_segment data_address p m a ≡ m a
  fill_segment_outside a off =
      rw fill_segment-finished (finished_outside (ltb p.p_filesz p.p_memsz) a off)

  pub fill_segment-Loaded : Loaded data_address p m (fill_segment data_address p m)
  fill_segment-Loaded = rw fill_segment-finished (record {
    copied = λ i below. finished_inside (ltb p.p_filesz p.p_memsz) i below;
    zeroed = λ i from below.
        let longer : ltb p.p_filesz p.p_memsz ≡ true = ground arith in
        rw longer (finished_zeroed i from below);
  })
