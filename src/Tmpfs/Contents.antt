-- ===== src/Tmpfs/Contents.antt =====
-- The bytes of a file: tmpfs_write_to_file and tmpfs_read_from_file.
use native.Mathlib.Decide.{dec_lt}
use willow_os.Prelude.{
  ℕ, ◌+◌, ◌-◌, ◌%◌, ◌^◌, ◌≤◌, ◌<◌, ◌≡◌, ◌≢◌, refl, true, false, ◌==◌, ltb, leb, if◌then◌else◌,
  arith, ap, ◌∙◌, ◌⊎◌, inl, inr,
}
use willow_os.Memory.{Memory, memcpy}
use willow_os.Memory.Disjoint.{Apart, memcpy-inside, memcpy-outside}
use willow_os.Tmpfs.{File, tmpfs_write_to_file, tmpfs_read_from_file}

-- The file after a write, and the memory before the last copy.
module _ (new buffer size offset : ℕ) (f : File) (m : Memory) where
  abbrev pub written : File × Memory
  written = tmpfs_write_to_file new buffer size offset f m

  -- The blocks that a write uses: the file's, the new one and the buffer do not meet.
  pub record Blocks : Type 0 where
    pub bounded : offset + size < 2 ^ 64
    pub allocated : f.data_address ≢ 0
    pub old_new : Apart new f.size f.data_address f.size
    pub buffer_new : Apart new (offset + size) buffer size
    pub buffer_old : Apart f.data_address f.size buffer size

  -- After a write: the file's block and size, the bytes of the buffer at the offset, and the file's
  -- other bytes as they were.
  pub record Written (block length : ℕ) : Type 0 where
    pub at_block : written.0.data_address ≡ block
    pub sized : written.0.size ≡ length
    pub bytes : (i : ℕ) → i < size → written.1 (block + offset + i) ≡ m (buffer + i)
    pub kept :
        (i : ℕ)
        → i < f.size
        → (i < offset) ⊎ (offset + size ≤ i)
        → written.1 (block + i) ≡ m (f.data_address + i)

  Written-in_place : offset + size ≤ f.size → Blocks → Written f.data_address f.size
  unfolding tmpfs_write_to_file
  Written-in_place fits b = record {
    at_block = rw still refl;
    sized = rw still refl;
    bytes = λ i h.
        rw still (memcpy-inside (f.data_address + offset) buffer size i m (part b.buffer_old) h);
    kept = λ i h out. rw still (
        memcpy-outside (f.data_address + offset) buffer size (f.data_address + i) m
          (part b.buffer_old) (off i out));
  }
    where
      still : ltb f.size ((offset + size) % 2 ^ 64) ≡ false
      still = let below = b.bounded in ground arith

      part :
          Apart f.data_address f.size buffer size → Apart (f.data_address + offset) size buffer size
      part (inl h) = inl (omega arith)
      part (inr h) = inr (omega arith)

      off :
          (i : ℕ)
          → (i < offset) ⊎ (offset + size ≤ i)
          → Apart (f.data_address + offset) size (f.data_address + i) 1
      off i (inl h) = inr (omega arith)
      off i (inr h) = inl (omega arith)

  Written-moved : f.size < offset + size → Blocks → Written new (offset + size)
  unfolding tmpfs_write_to_file
  Written-moved longer b = record {
    at_block = rw grows refl;
    sized = rw grows (omega (arith, b.bounded));
    bytes = λ i h.
        rw (grows, real)
          (memcpy-inside (new + offset) buffer size i moved (part b.buffer_new) h
            ∙ memcpy-outside new f.data_address f.size (buffer + i) m b.old_new
                (away i h b.buffer_new));
    kept = λ i h out.
        rw (grows, real)
          (memcpy-outside (new + offset) buffer size (new + i) moved (part b.buffer_new) (off i out)
            ∙ memcpy-inside new f.data_address f.size i m b.old_new h);
  }
    where
      grows : ltb f.size ((offset + size) % 2 ^ 64) ≡ true
      grows = let below = b.bounded in ground arith

      real : (f.data_address == 0) ≡ false
      real = let some_block = b.allocated in ground arith

      moved : Memory
      moved = memcpy new f.data_address f.size m

      part : Apart new (offset + size) buffer size → Apart (new + offset) size buffer size
      part (inl h) = inl (omega arith)
      part (inr h) = inr (omega arith)

      away :
          (i : ℕ)
          → i < size
          → Apart new (offset + size) buffer size
          → Apart new f.size (buffer + i) 1
      away i h (inl k) = inl (omega arith)
      away i h (inr k) = inr (omega arith)

      off : (i : ℕ) → (i < offset) ⊎ (offset + size ≤ i) → Apart (new + offset) size (new + i) 1
      off i (inl h) = inr (omega arith)
      off i (inr h) = inl (omega arith)

-- A write that ends below 2^64, into a file that has a block, with blocks that do not meet: the file
-- grows into the new block exactly if the write ends past its size; the bytes from the offset on are
-- those of the buffer, and the file's other bytes are what they were.
pub tmpfs_write_to_file-Written :
    (new buffer size offset : ℕ) (f : File) (m : Memory)
    → Blocks new buffer size offset f m
    → ((offset + size ≤ f.size) × Written new buffer size offset f m f.data_address f.size)
      ⊎ ((f.size < offset + size) × Written new buffer size offset f m new (offset + size))
tmpfs_write_to_file-Written new buffer size offset f m b = elim (dec_lt f.size (offset + size)) [
  | yes h ↦ inr (h, Written-moved new buffer size offset f m h b)
  | no h ↦ inl (omega arith, Written-in_place new buffer size offset f m (omega arith) b)
]

-- Reading back after a write that was not empty, ends below 2^64 and uses blocks that do not meet: what
-- `tmpfs_read_from_file` stores at a target that does not meet the range is what was written, and it
-- answers the number of bytes.
pub tmpfs_write-read :
    (new buffer size offset target : ℕ) (f : File) (m : Memory)
    → Blocks new buffer size offset f m
    → 0 < size
    → Apart target size
        ((tmpfs_write_to_file new buffer size offset f m).0.data_address + offset)
        size
    → (let (f', m') = tmpfs_write_to_file new buffer size offset f m in
        let (count, f'', m'') = tmpfs_read_from_file target size offset f' m' in
        (count ≡ size) × ((i : ℕ) → i < size → m'' (target + i) ≡ m (buffer + i)))
unfolding tmpfs_read_from_file
tmpfs_write-read new buffer size offset target f m b some_bytes apart =
    reads (tmpfs_write_to_file-Written new buffer size offset f m b)
  where
    f' : File
    f' = (tmpfs_write_to_file new buffer size offset f m).0

    m' : Memory
    m' = (tmpfs_write_to_file new buffer size offset f m).1

    from :
        (block length : ℕ)
        → Written new buffer size offset f m block length
        → offset + size ≤ length
        → (let (count, f'', m'') = tmpfs_read_from_file target size offset f' m' in
            (count ≡ size) × ((i : ℕ) → i < size → m'' (target + i) ≡ m (buffer + i)))
    from block length w long =
        rw (early, whole)
          (
            refl,
            λ i h.
                memcpy-inside target (f'.data_address + offset) size i m' apart h
                ∙ ap (λ a. m' (a + offset + i)) w.at_block
                ∙ w.bytes i h,
          )
      where
        early : leb f'.size offset ≡ false
        early = rw w.sized (ground arith)

        whole : (if ltb size (f'.size - offset) then size else f'.size - offset) ≡ size
        whole = rw w.sized (ground arith)

    reads :
        ((offset + size ≤ f.size) × Written new buffer size offset f m f.data_address f.size)
          ⊎ ((f.size < offset + size) × Written new buffer size offset f m new (offset + size))
        → (let (count, f'', m'') = tmpfs_read_from_file target size offset f' m' in
            (count ≡ size) × ((i : ℕ) → i < size → m'' (target + i) ≡ m (buffer + i)))
    reads (inl (h, w)) = from f.data_address f.size w h
    reads (inr (h, w)) = from new (offset + size) w (omega arith)
