-- ===== src/Loader/Executable.antt =====
-- The headers of an executable, which stay as they are while load_elf of limine-c-template-x86-64/kernel/src/loader.c loads the segments.
use willow_os.Prelude.{
  ℕ, zero, suc, ◌+◌, ◌*◌, ◌%◌, ◌^◌, ◌≤◌, ◌<◌, ◌≡◌, ◌≢◌, ◌∙◌, ap, refl, inl, inr, arith,
}
use willow_os.Memory.{Memory}
use willow_os.Memory.Disjoint.{Apart}
use willow_os.Loader.{Phdr, word, phdr_at, e_phnum, phdr_address, pt_load, segment_page}
use willow_os.Loader.Segments.{image_size, IsSegment}

-- Program header `i` of the file at `data_address`.
abbrev pub segment : (data_address i : ℕ) → Memory → Phdr
segment data_address i m = phdr_at (phdr_address data_address i m) m

-- An executable of `len` bytes: its headers and the bytes of its segments lie in it, and the images of
-- the segments to load meet neither the file nor one another.
pub record IsExecutable (data_address len : ℕ) (m : Memory) : Type 0 where
  pub header : 64 ≤ len
  pub headers :
      (i : ℕ)
      → i < e_phnum data_address m
      → (data_address ≤ phdr_address data_address i m)
        × (phdr_address data_address i m + 56 ≤ data_address + len)
  pub fits :
      (i : ℕ)
      → i < e_phnum data_address m
      → (segment data_address i m).p_type ≡ pt_load
      → ((segment data_address i m).p_filesz ≤ (segment data_address i m).p_memsz)
        × ((segment data_address i m).p_vaddr + (segment data_address i m).p_memsz < 2 ^ 64)
        × ((segment data_address i m).p_offset + (segment data_address i m).p_filesz ≤ len)
  pub outside :
      (i : ℕ)
      → i < e_phnum data_address m
      → (segment data_address i m).p_type ≡ pt_load
      → Apart
          (segment_page (segment data_address i m))
          (image_size (segment data_address i m))
          data_address
          len
  pub disjoint :
      (i j : ℕ)
      → i < e_phnum data_address m
      → j < e_phnum data_address m
      → i ≢ j
      → (segment data_address i m).p_type ≡ pt_load
      → (segment data_address j m).p_type ≡ pt_load
      → Apart
          (segment_page (segment data_address i m))
          (image_size (segment data_address i m))
          (segment_page (segment data_address j m))
          (image_size (segment data_address j m))

-- The bytes of the file are those at the start.
abbrev pub Kept : (data_address len : ℕ) (m m' : Memory) → Type 0
Kept data_address len m m' = (a : ℕ) → data_address ≤ a → a < data_address + len → m' a ≡ m a

word_same :
    (n a : ℕ) (m m' : Memory)
    → ((j : ℕ) → j < n → m' (a + j) ≡ m (a + j))
    → word n m' a ≡ word n m a
unfolding word
word_same zero a m m' same = refl
word_same (suc n) a m m' same = λ i.
    first i + 256 * word_same n (a + 1) m m' (λ j below. shift j (same (suc j) (omega arith))) i
  where
    first : m' a ≡ m a
    first = rw (← at) (same 0 (omega arith))
      where
        at : a + 0 ≡ a
        at = omega arith

    shift : (j : ℕ) → m' (a + suc j) ≡ m (a + suc j) → m' (a + 1 + j) ≡ m (a + 1 + j)
    shift j h = let e : a + 1 + j ≡ a + suc j = omega arith in rw e h

module _ (data_address len : ℕ) (m : Memory) (ok : IsExecutable data_address len m) where
  pub word-Kept :
      (n a : ℕ) (m' : Memory)
      → Kept data_address len m m'
      → data_address ≤ a
      → a + n ≤ data_address + len
      → word n m' a ≡ word n m a
  word-Kept n a m' kept low high =
      word_same n a m m' (λ j below. kept (a + j) (omega arith) (omega arith))

  pub e_phnum-Kept :
      (m' : Memory) → Kept data_address len m m' → e_phnum data_address m' ≡ e_phnum data_address m
  e_phnum-Kept m' kept =
      word-Kept 2 (data_address + 56) m' kept (omega arith) (omega (arith, ok.header))

  phdr_address-Kept :
      (i : ℕ) (m' : Memory)
      → Kept data_address len m m'
      → phdr_address data_address i m' ≡ phdr_address data_address i m
  unfolding phdr_address
  phdr_address-Kept i m' kept = λ k.
      (word-Kept 8 (data_address + 32) m' kept (omega arith) (omega (arith, ok.header)) k
        + i * word-Kept 2 (data_address + 54) m' kept (omega arith) (omega (arith, ok.header)) k
        + data_address)
      % 2 ^ 64

  phdr_at-Kept :
      (a : ℕ) (m' : Memory)
      → Kept data_address len m m'
      → data_address ≤ a
      → a + 56 ≤ data_address + len
      → phdr_at a m' ≡ phdr_at a m
  unfolding phdr_at
  phdr_at-Kept a m' kept low high = λ k. record {
    p_type = word-Kept 4 a m' kept low (omega arith) k;
    p_offset = word-Kept 8 (a + 8) m' kept (omega arith) (omega arith) k;
    p_vaddr = word-Kept 8 (a + 16) m' kept (omega arith) (omega arith) k;
    p_filesz = word-Kept 8 (a + 32) m' kept (omega arith) (omega arith) k;
    p_memsz = word-Kept 8 (a + 40) m' kept (omega arith) (omega arith) k;
  }

  pub segment-Kept :
      (i : ℕ) (m' : Memory)
      → Kept data_address len m m'
      → i < e_phnum data_address m
      → segment data_address i m' ≡ segment data_address i m
  segment-Kept i m' kept below =
      let h = ok.headers i below in
      ap (λ a. phdr_at a m') (phdr_address-Kept i m' kept)
      ∙ phdr_at-Kept (phdr_address data_address i m) m' kept h.0 h.1

  pub segment-IsSegment :
      (i : ℕ)
      → i < e_phnum data_address m
      → (segment data_address i m).p_type ≡ pt_load
      → IsSegment data_address (segment data_address i m)
  segment-IsSegment i below load =
      let f = ok.fits i below load in
      record { fits = f.0; bounded = f.1; apart = from (ok.outside i below load) }
    where
      from :
          Apart
            (segment_page (segment data_address i m))
            (image_size (segment data_address i m))
            data_address
            len
          → Apart
              (segment_page (segment data_address i m))
              (image_size (segment data_address i m))
              (data_address + (segment data_address i m).p_offset)
              (segment data_address i m).p_filesz
      from (inl h) = inl (omega arith)
      from (inr h) = let f = ok.fits i below load in inr (omega (arith, f.2))
