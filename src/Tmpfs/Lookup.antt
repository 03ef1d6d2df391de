-- ===== src/Tmpfs/Lookup.antt =====
-- Entries found by name, and deleted.
use native.Mathlib.Nat.{add-zero, zero-add}
use willow_os.Prelude.{
  ℕ, zero, suc, ◌+◌, ◌^◌, ◌≤◌, ◌≡◌, ◌≢◌, refl, sym, Bool, true, false, Option, none, some, List, [],
  ◌∷◌, ◌==◌, if◌then◌else◌, arith, set, get_elem?, get_or, ap, ◌∙◌, length-set, ◌⊎◌, inl, inr,
}
use willow_os.Tmpfs.{
  Entry, file, directory, Directory, drop_entry, find_entry, has_name, is_file, is_directory,
  tmpfs_lookup, tmpfs_delete_file, tmpfs_delete_directory, delete_found, unless_open, found,
  entry_name,
}
use willow_os.Tmpfs.Slots.{taken, count_taken, count_taken-set}
use willow_os.Tmpfs.Entries.{IsDirectory}

-- What a search may answer, from index `i` on.
abbrev pub Finds : (test : Entry → Bool) (entries : ℕ → Entry) (i : ℕ) → List ℕ → Option ℕ → Type 0
Finds test entries i files none =
    (k f : ℕ) → get_elem? files k ≡ some f → f ≢ 0 → test (entries f) ≡ false
Finds test entries i files (some j) =
    (k : ℕ) × (f : ℕ) × (j ≡ i + k)
    × (get_elem? files k ≡ some f)
    × (f ≢ 0)
    × (test (entries f) ≡ true)

find_entry-Finds :
    (test : Entry → Bool) (entries : ℕ → Entry) (i : ℕ) (files : List ℕ)
    → Finds test entries i files (find_entry test entries i files)
unfolding find_entry
find_entry-Finds test entries i [] = λ k f h real. absurd cc
find_entry-Finds test entries i (f ∷ rest) =
    split (f == 0) refl (test (entries f)) refl (find_entry test entries (i + 1) rest)
      (find_entry-Finds test entries (i + 1) rest)
  where
    behind :
        (f ≢ 0 → test (entries f) ≡ false)
        → (o : Option ℕ) → Finds test entries (i + 1) rest o
        → Finds test entries i (f ∷ rest) o
    behind fails none h = later
      where
        later : (k g : ℕ) → get_elem? (f ∷ rest) k ≡ some g → g ≢ 0 → test (entries g) ≡ false
        later zero g at real =
            let same : f ≡ g = cc in
            ap (λ x. test (entries x)) (sym same) ∙ fails (λ e. real (sym same ∙ e))
        later (suc k) g at real = h k g at real
    behind fails (some j) (k, g, e, at, real, t) = (suc k, g, omega (arith, e), at, real, t)

    split :
        (null : Bool)
        → (f == 0) ≡ null
        → (passes : Bool) → test (entries f) ≡ passes
        → (o : Option ℕ) → Finds test entries (i + 1) rest o
        → Finds test entries i (f ∷ rest) (if null then o else (if passes then some i else o))
    split true e passes t o h = behind (λ real. absurd (real (ground arith))) o h
    split false e true t o h = (0, f, sym (add-zero i), refl, (λ z. ground arith), t)
    split false e false t o h = behind (λ real. t) o h

-- With an array index `k`, `get_or` is the entry.
get_or-eq : (xs : List ℕ) (k x : ℕ) → get_elem? xs k ≡ some x → get_or xs k 0 ≡ x
get_or-eq [] k x h = absurd cc
get_or-eq (y ∷ xs) zero x h = cc
get_or-eq (y ∷ xs) (suc k) x h = get_or-eq xs k x h

-- The answer is an entry of the directory that has the name, or NULL, and then no entry has it.
abbrev pub Answers :
    (same_name : List ℕ → List ℕ → Bool) (name : List ℕ) (entries : ℕ → Entry) (files : List ℕ)
    (answer : ℕ)
    → Type 0
Answers same_name name entries files answer =
    ((answer ≢ 0)
      × ((k : ℕ) × (get_elem? files k ≡ some answer))
      × (same_name (entry_name (entries answer)) name ≡ true))
    ⊎ ((answer ≡ 0)
        × ((k f : ℕ)
            → get_elem? files k ≡ some f
            → f ≢ 0
            → same_name (entry_name (entries f)) name ≡ false))

-- What `tmpfs_lookup` answers, whatever test stands for strcmp: the address of an entry of the
-- directory that has the name, or NULL, and then no entry of the directory has it.
pub tmpfs_lookup-Answers :
    (same_name : List ℕ → List ℕ → Bool) (name : List ℕ) (entries : ℕ → Entry) (d : Directory)
    → Answers same_name name entries d.files (tmpfs_lookup same_name name entries d)
unfolding tmpfs_lookup
tmpfs_lookup-Answers same_name name entries d =
    answers (find_entry (has_name same_name name) entries 0 d.files)
      (find_entry-Finds (has_name same_name name) entries 0 d.files)
  where
    answers :
        (o : Option ℕ)
        → Finds (has_name same_name name) entries 0 d.files o
        → Answers same_name name entries d.files (found d o)
    answers none h = inr (refl, h)
    answers (some j) (k, f, e, at, real, t) =
        rw (e ∙ zero-add k, get_or-eq d.files k f at) (inl (real, (k, at), t))

-- An entry taken out of its slot.
drop_entry-IsDirectory :
    (d : Directory) (k f : ℕ)
    → IsDirectory d
    → d.max_files ≤ 2 ^ 64
    → get_elem? d.files k ≡ some f
    → f ≢ 0
    → IsDirectory (drop_entry k d) × (d.num_files ≡ suc (drop_entry k d).num_files)
drop_entry-IsDirectory d k f ok few at real = (
  record {
    counted = omega (arith, changed, one, ok.counted, ok.room);
    sized = length-set d.files k 0 ∙ ok.sized;
    room = omega (arith, changed, one, ok.counted, ok.room);
  },
  omega (arith, changed, one, ok.counted, ok.room),
)
  where
    changed : count_taken (set d.files k 0) + taken f ≡ count_taken d.files + taken 0
    changed = count_taken-set d.files k 0 f at

    one : taken f ≡ 1
    one = ground arith

module _ (entries : ℕ → Entry) (d : Directory) (ok : IsDirectory d)
    (few : d.max_files ≤ 2 ^ 64) where
  unless_open-IsDirectory :
      (k f : ℕ) (e : Entry) → get_elem? d.files k ≡ some f → f ≢ 0 → IsDirectory (unless_open k e d)
  unless_open-IsDirectory k f (file g) at real = split (g.open_count == 0)
    where
      split : (b : Bool) → IsDirectory (if b then drop_entry k d else d)
      split true = (drop_entry-IsDirectory d k f ok few at real).0
      split false = ok
  unless_open-IsDirectory k f (directory g) at real =
      (drop_entry-IsDirectory d k f ok few at real).0

  delete_found-IsDirectory :
      (test : Entry → Bool) (o : Option ℕ)
      → Finds test entries 0 d.files o
      → IsDirectory (delete_found entries d o)
  delete_found-IsDirectory test none h = ok
  delete_found-IsDirectory test (some j) (k, f, e, at, real, t) =
      rw (e ∙ zero-add k, get_or-eq d.files k f at)
        (unless_open-IsDirectory k f (entries f) at real)

-- In a directory whose counters agree, they still agree after a file or a directory is deleted,
-- whether or not an entry of the name was there and whether or not the file was open.
pub tmpfs_delete-IsDirectory :
    (same_name : List ℕ → List ℕ → Bool) (name : List ℕ) (entries : ℕ → Entry) (d : Directory)
    → IsDirectory d
    → d.max_files ≤ 2 ^ 64
    → IsDirectory (tmpfs_delete_file same_name name entries d)
      × IsDirectory (tmpfs_delete_directory same_name name entries d)
unfolding tmpfs_delete_file tmpfs_delete_directory
tmpfs_delete-IsDirectory same_name name entries d ok few = (
  delete_found-IsDirectory entries d ok few (is_file same_name name)
      (find_entry (is_file same_name name) entries 0 d.files)
      (find_entry-Finds (is_file same_name name) entries 0 d.files),
  delete_found-IsDirectory entries d ok few (is_directory same_name name)
      (find_entry (is_directory same_name name) entries 0 d.files)
      (find_entry-Finds (is_directory same_name name) entries 0 d.files),
)
