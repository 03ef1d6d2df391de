-- ===== src/Tests/Tmpfs.antt =====
-- A small directory and a file, and the theorems on tmpfs.c at them.
use willow_os.Prelude.{
  ℕ, ◌+◌, ◌≡◌, ◌<◌, refl, true, false, Bool, List, [], ◌∷◌, ◌==◌, arith, inl, inr,
}
use willow_os.Memory.{Memory}
use willow_os.Tmpfs.{
  File, Directory, Entry, file, new_header, tmpfs_delete_file, tmpfs_delete_directory,
  tmpfs_write_to_file, tmpfs_read_from_file,
}
use willow_os.Tmpfs.Entries.{IsDirectory}
use willow_os.Tmpfs.Lookup.{tmpfs_delete-IsDirectory}
use willow_os.Tmpfs.Contents.{Blocks, tmpfs_write-read}

-- One entry, and three slots.
abbrev small : Directory
small = record {
  header = new_header (97 ∷ []);
  files = 700 ∷ 0 ∷ 0 ∷ [];
  max_files = 3;
  num_files = 1;
}

abbrev text : File
text = record { header = new_header (98 ∷ []); size = 4; data_address = 900; open_count = 0 }

abbrev entries : ℕ → Entry
entries address = file text

-- Names of one byte are told apart by it.
abbrev same_name : List ℕ → List ℕ → Bool
same_name (a ∷ x) (b ∷ y) = a == b
same_name (a ∷ x) [] = false
same_name [] (b ∷ y) = false
same_name [] [] = true

abbrev memory : Memory
memory a = a

small-IsDirectory : IsDirectory small
small-IsDirectory = record { counted = refl; sized = refl; room = omega arith }

tmpfs_delete-IsDirectory_example :
    IsDirectory (tmpfs_delete_file same_name (98 ∷ []) entries small)
    × IsDirectory (tmpfs_delete_directory same_name (98 ∷ []) entries small)
tmpfs_delete-IsDirectory_example =
    tmpfs_delete-IsDirectory same_name (98 ∷ []) entries small small-IsDirectory (omega arith)

blocks : Blocks 1000 2000 8 2 text memory
blocks = record {
  bounded = omega arith;
  allocated = λ h. omega arith;
  old_new = inr (omega arith);
  buffer_new = inl (omega arith);
  buffer_old = inl (omega arith);
}

tmpfs_write-read_example :
    (tmpfs_read_from_file 3000 8 2
        (tmpfs_write_to_file 1000 2000 8 2 text memory).0
        (tmpfs_write_to_file 1000 2000 8 2 text memory).1).0
      ≡ 8
    × ((i : ℕ)
        → i < 8
        → (tmpfs_read_from_file 3000 8 2
              (tmpfs_write_to_file 1000 2000 8 2 text memory).0
              (tmpfs_write_to_file 1000 2000 8 2 text memory).1).2
            (3000 + i)
          ≡ memory (2000 + i))
unfolding tmpfs_write_to_file
tmpfs_write-read_example =
    tmpfs_write-read 1000 2000 8 2 3000 text memory blocks (omega arith) (inr (omega arith))
