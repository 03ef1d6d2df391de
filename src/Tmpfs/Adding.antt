-- ===== src/Tmpfs/Adding.antt =====
-- What add_entry of limine-c-template-x86-64/kernel/src/tmpfs.c leaves in the slots and in the header.
use willow_os.Prelude.{
  ℕ, zero, suc, ◌+◌, ◌≡◌, ◌≢◌, refl, ◌⊎◌, inl, inr, Bool, true, false, some, List, [], ◌∷◌, ◌++◌,
  ◌==◌, if◌then◌else◌, arith, get_elem?, set, replicate,
}
use willow_os.Tmpfs.{Directory, free_index, grow, add_entry}

get_elem?-replicate_zero : (n i x : ℕ) → get_elem? (replicate n 0) i ≡ some x → x ≡ 0
get_elem?-replicate_zero zero i x h = cc
get_elem?-replicate_zero (suc n) zero x h = ground arith
get_elem?-replicate_zero (suc n) (suc i) x h = get_elem?-replicate_zero n i x h

get_elem?-padded :
    (xs : List ℕ) (n i x : ℕ)
    → x ≢ 0
    → get_elem? (xs ++ replicate n 0) i ≡ some x
    → get_elem? xs i ≡ some x
get_elem?-padded [] n i x real h = absurd (real (get_elem?-replicate_zero n i x h))
get_elem?-padded (y ∷ xs) n zero x real h = h
get_elem?-padded (y ∷ xs) n (suc i) x real h = get_elem?-padded xs n i x real h

get_elem?-set_back :
    (xs : List ℕ) (k v i x : ℕ)
    → get_elem? (set xs k v) i ≡ some x
    → (x ≡ v) ⊎ (get_elem? xs i ≡ some x)
get_elem?-set_back [] k v i x h = inr h
get_elem?-set_back (y ∷ xs) zero v zero x h = inl (ground arith)
get_elem?-set_back (y ∷ xs) zero v (suc i) x h = inr h
get_elem?-set_back (y ∷ xs) (suc k) v zero x h = inr h
get_elem?-set_back (y ∷ xs) (suc k) v (suc i) x h = get_elem?-set_back xs k v i x h

-- What stands in a slot after `add_entry` is the new entry or stood there before.
pub add_entry-back :
    (new i x : ℕ) (d : Directory)
    → x ≢ 0
    → get_elem? (add_entry new d).files i ≡ some x
    → (x ≡ new) ⊎ (get_elem? d.files i ≡ some x)
unfolding add_entry grow
add_entry-back new i x d real = split (d.num_files + 1 == d.max_files)
  where
    filled : Directory
    filled = record d {
      header = record (d.header) { locked = true };
      files = set d.files (free_index d.files) new;
      num_files = d.num_files + 1;
    }

    split :
        (b : Bool)
        → get_elem?
            (if b
              then (record filled {
                max_files = d.max_files + 32;
                files = filled.files ++ replicate 32 0;
              })
              else filled).files
            i
          ≡ some x
        → (x ≡ new) ⊎ (get_elem? d.files i ≡ some x)
    split true h =
        get_elem?-set_back d.files (free_index d.files) new i x
          (get_elem?-padded filled.files 32 i x real h)
    split false h = get_elem?-set_back d.files (free_index d.files) new i x h

-- The directory keeps its name.
pub add_entry-header : (new : ℕ) (d : Directory) → (add_entry new d).header.name ≡ d.header.name
unfolding add_entry grow
add_entry-header new d = split (d.num_files + 1 == d.max_files)
  where
    filled : Directory
    filled = record d {
      header = record (d.header) { locked = true };
      files = set d.files (free_index d.files) new;
      num_files = d.num_files + 1;
    }

    split :
        (b : Bool)
        → (if b
            then (record filled {
              max_files = d.max_files + 32;
              files = filled.files ++ replicate 32 0;
            })
            else filled).header.name
          ≡ d.header.name
    split true = refl
    split false = refl
