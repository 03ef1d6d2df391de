-- ===== src/Strings/Tar.antt =====
-- A file found in an archive by `tar_lookup`.
use willow_os.Prelude.{
  ℕ, ◌+◌, ◌≡◌, true, false, Option, none, some, List, [], ◌∷◌, if◌then◌else◌, length,
}
use willow_os.Memory.{Memory, memcmp}
use willow_os.Strings.{is_same, filesize, next_header}

-- The headers of an archive: each bears the word "ustar" and is followed by the file's blocks, and the
-- one behind the last does not bear it.
pub data Archive (ustar : ℕ) (m : Memory) : ℕ → List ℕ → Type 0 where
  ends : {ptr : ℕ} → is_same (memcmp (ptr + 257) ustar 5 m) ≡ false → Archive ustar m ptr []
  header :
      {ptr : ℕ} {headers : List ℕ}
      → is_same (memcmp (ptr + 257) ustar 5 m) ≡ true
      → Archive ustar m (next_header ptr m) headers
      → Archive ustar m ptr (ptr ∷ headers)

-- The first file of the name.
abbrev pub first_file : (filename length : ℕ) → Memory → List ℕ → ℕ × Option ℕ
first_file filename length m [] = (0, none)
first_file filename length m (h ∷ headers) =
    let later = first_file filename length m headers in
    if is_same (memcmp h filename (length + 1) m) then (filesize h m, some (h + 512)) else later
