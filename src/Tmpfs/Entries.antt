-- ===== src/Tmpfs/Entries.antt =====
-- Directories: creating, deleting and looking up entries.
use native.Mathlib.Decide.{dec_lt}
use willow_os.Prelude.{
  ◌⊎◌, inl, inr, ℕ, zero, suc, ◌+◌, ◌≤◌, ◌<◌, ◌≡◌, ◌≢◌, refl, sym, Bool, true, false, none, some,
  List, [], ◌∷◌, ◌++◌, ◌==◌, if◌then◌else◌, arith, length, set, get_elem?, replicate, ◌∙◌, leb,
  length-append, length-replicate, length-set, get_elem?-set_self, get_elem?-set_ne,
}
use willow_os.Tmpfs.{Directory, grow, add_entry, free_index, tmpfs_create_directory, new_header}
use willow_os.Mutex.{release_mutex, compare_exchange}
use willow_os.Tmpfs.Slots.{
  taken, count_taken, count_taken-append, count_taken-replicate, count_taken-set, free_index-free,
}

-- The counters agree with the array, and a slot is left.
pub record IsDirectory (d : Directory) : Type 0 where
  pub counted : count_taken d.files ≡ d.num_files
  pub sized : length d.files ≡ d.max_files
  pub room : d.num_files < d.max_files

get_elem?-append :
    (xs ys : List ℕ) (i x : ℕ) → get_elem? xs i ≡ some x → get_elem? (xs ++ ys) i ≡ some x
get_elem?-append [] ys i x h = absurd cc
get_elem?-append (y ∷ xs) ys zero x h = h
get_elem?-append (y ∷ xs) ys (suc i) x h = get_elem?-append xs ys i x h

get_elem?-lt : (xs : List ℕ) (i x : ℕ) → get_elem? xs i ≡ some x → i < length xs
get_elem?-lt [] i x h = absurd cc
get_elem?-lt (y ∷ xs) zero x h = omega arith
get_elem?-lt (y ∷ xs) (suc i) x h = omega (arith, get_elem?-lt xs i x h)

-- `grow` leaves a slot free and keeps the entries.
grow-IsDirectory :
    (d : Directory)
    → count_taken d.files ≡ d.num_files
    → length d.files ≡ d.max_files
    → d.num_files ≤ d.max_files
    → IsDirectory (grow d)
      × ((i x : ℕ) → get_elem? d.files i ≡ some x → get_elem? (grow d).files i ≡ some x)
unfolding grow
grow-IsDirectory d counted sized le = split (d.num_files == d.max_files) refl
  where
    split :
        (b : Bool)
        → (d.num_files == d.max_files) ≡ b
        → (let d' =
              if b
              then (record d { max_files = d.max_files + 32; files = d.files ++ replicate 32 0 })
              else d in
            IsDirectory d'
            × ((i x : ℕ) → get_elem? d.files i ≡ some x → get_elem? d'.files i ≡ some x))
    split true e = (
      record {
        counted =
            omega (arith, count_taken-append d.files (replicate 32 0), count_taken-replicate 32);
        sized =
            omega (arith, length-append d.files (replicate 32 0), length-replicate {A = ℕ} 32 0);
        room = ground arith;
      },
      λ i x h. get_elem?-append d.files (replicate 32 0) i x h,
    )
    split false e = (record { counted = counted; sized = sized; room = ground arith }, λ i x h. h)

-- What a new entry does to the directory: it takes a slot that was NULL, every other slot keeps its
-- entry, and the counters still agree, a slot being left.
pub record Adds (new : ℕ) (d d' : Directory) : Type 0 where
  pub directory : IsDirectory d'
  pub slot : ℕ
  pub was_null : get_elem? d.files slot ≡ some 0
  pub holds : get_elem? d'.files slot ≡ some new
  pub others : (i x : ℕ) → i ≢ slot → get_elem? d.files i ≡ some x → get_elem? d'.files i ≡ some x
  pub unlocked : d'.header.locked ≡ false

pub add_entry-Adds :
    (new : ℕ) (d : Directory) → IsDirectory d → new ≢ 0 → Adds new d (add_entry new d)
unfolding add_entry release_mutex compare_exchange
add_entry-Adds new d ok real = record {
  directory = record { counted = grown.0.counted; sized = grown.0.sized; room = grown.0.room };
  slot = slot;
  was_null = null;
  holds = grown.1 slot new (get_elem?-set_self d.files slot new (get_elem?-lt d.files slot 0 null));
  others = λ i x ne h. grown.1 i x (get_elem?-set_ne d.files new (λ e. ne (sym e)) ∙ h);
  unlocked = refl;
}
  where
    slot : ℕ
    slot = free_index d.files

    null : get_elem? d.files slot ≡ some 0
    null = free_index-free d.files (omega (arith, ok.counted, ok.sized, ok.room))

    filled : Directory
    filled = record d {
      header = record (d.header) { locked = true };
      files = set d.files slot new;
      num_files = d.num_files + 1;
    }

    one : taken new ≡ 1
    one = ground arith

    grown :
        IsDirectory (grow filled)
        × ((i x : ℕ) → get_elem? filled.files i ≡ some x → get_elem? (grow filled).files i ≡ some x)
    grown =
        grow-IsDirectory filled
          (omega (arith, count_taken-set d.files slot new 0 null, one, ok.counted))
          (length-set d.files slot new ∙ ok.sized) (omega (arith, ok.room))

-- `tmpfs_create_directory` with a name of at most 127 bytes, into a directory whose counters agree:
-- if the parent has at most 32 slots, the new directory is empty with agreeing counters, and it takes
-- a slot that was NULL; with more slots in the parent the function writes past those of the new one.
pub tmpfs_create_directory-Adds :
    (new : ℕ) (name : List ℕ) (d : Directory)
    → IsDirectory d
    → new ≢ 0
    → length name ≤ 127
    → ((d.max_files ≤ 32)
        × (e : Directory) × (d' : Directory) × (tmpfs_create_directory new name d ≡ some (e, d'))
        × IsDirectory e
        × (count_taken e.files ≡ 0)
        × Adds new d d')
      ⊎ ((32 < d.max_files) × (tmpfs_create_directory new name d ≡ none))
unfolding tmpfs_create_directory
tmpfs_create_directory-Adds new name d ok real short = elim (dec_lt 32 d.max_files) [
  | yes many ↦ inr (many, rw (fits, past many) refl)
  | no few ↦ inl (
    omega arith,
    record { header = new_header name; files = replicate 32 0; max_files = 32; num_files = 0 },
    add_entry new d,
    rw (fits, in_array few) refl,
    record {
      counted = count_taken-replicate 32;
      sized = length-replicate {A = ℕ} 32 0;
      room = omega arith;
    },
    count_taken-replicate 32,
    add_entry-Adds new d ok real,
  )
]
  where
    fits : leb (length name) 127 ≡ true
    fits = ground arith

    in_array : (32 < d.max_files → ⊥) → leb d.max_files 32 ≡ true
    in_array h = ground arith

    past : 32 < d.max_files → leb d.max_files 32 ≡ false
    past h = ground arith
