-- ===== src/Descriptors/Table.antt =====
-- The table of descriptors of limine-c-template-x86-64/kernel/src/vfs.c as a map from numbers to files.
use willow_os.Prelude.{
  ℕ, ◌≡◌, ◌≢◌, ◌∙◌, ap, refl, sym, ◌⊎◌, inl, inr, Bool, true, false, List, Option, none, some, ◌==◌,
  if◌then◌else◌, arith, Bool-cases,
}
use willow_os.Descriptors.{
  OaHash, Printing, put_text, Descriptors, print_key, file_at, store_file, vfs_fdclose,
  vfs_int_fd_to_vfs_file,
}

module _ (h : OaHash) (p : Printing) where
  -- The keys of the table are intact.
  abbrev pub IsIntact : Descriptors h p → Type 0
  IsIntact d = h.IsKept d.text d.table

  -- The table does not keep the buffer as a key.
  abbrev pub IsFresh : (buf : ℕ) → Descriptors h p → Type 0
  IsFresh buf d = h.holds d.table buf ≡ false

  -- Every number stands for the same file, and nothing else has changed but the buffers.
  pub record SameFiles (d d' : Descriptors h p) : Type 0 where
    pub same : (j : ℕ) → file_at h p j d' ≡ file_at h p j d
    pub intact : IsIntact d'
    pub files : d'.files ≡ d.files
    pub nodes : d'.nodes ≡ d.nodes

  -- A number that was free stands for the file, and every other for what it stood for.
  pub record Opens (file fd : ℕ) (d d' : Descriptors h p) : Type 0 where
    pub was_free : file_at h p fd d ≡ 0
    pub stands : file_at h p fd d' ≡ file
    pub others : (j : ℕ) → j ≢ fd → file_at h p j d' ≡ file_at h p j d
    pub intact : IsIntact d'
    pub files : d'.files ≡ d.files
    pub nodes : d'.nodes ≡ d.nodes

  -- A number is given out, but the table had no space left and the file is nowhere in it.
  pub record IsLost (buf file fd : ℕ) (d d' : Descriptors h p) : Type 0 where
    pub was_free : file_at h p fd d ≡ 0
    pub text : ℕ → List ℕ
    pub full : (h.set text d.table buf file).0 ≡ 0
    pub unchanged : SameFiles d d'

  module _ (buf : ℕ) (d : Descriptors h p) (fresh : IsFresh buf d) where
    text_kept :
        (fd a : ℕ) → h.holds d.table a ≡ true → d.text a ≡ put_text d.text buf (p.decimal fd) a
    text_kept fd a held = elim (Bool-cases (a == buf)) [
      | inl e ↦ absurd (ground (arith, fresh, ap (h.holds d.table) (same_address e)))
      | inr e ↦ rw e
    ]
      where
        same_address : (a == buf) ≡ true → a ≡ buf
        same_address e = ground arith

    pub print_key-SameFiles : (fd : ℕ) → IsIntact d → SameFiles d (print_key h p buf fd d)
    print_key-SameFiles fd ok = record {
      same = λ j. sym (
          h.get-text d.text (put_text d.text buf (p.decimal fd)) d.table (p.decimal j)
            (text_kept fd));
      intact = h.IsKept-text d.text (put_text d.text buf (p.decimal fd)) d.table (text_kept fd) ok;
      files = refl;
      nodes = refl;
    }

  pub SameFiles-trans :
      {d d' d'' : Descriptors h p} → SameFiles d d' → SameFiles d' d'' → SameFiles d d''
  SameFiles-trans s t = record {
    same = λ j. t.same j ∙ s.same j;
    intact = t.intact;
    files = t.files ∙ s.files;
    nodes = t.nodes ∙ s.nodes;
  }

  module _ (buf file fd : ℕ) (d : Descriptors h p) (fresh : IsFresh buf d) (ok : IsIntact d)
      (real : file ≢ 0) (free : file_at h p fd d ≡ 0) where
    abbrev printed : Descriptors h p
    printed = print_key h p buf fd d

    abbrev stored : Descriptors h p
    stored = store_file h p buf file printed

    key : printed.text buf ≡ p.decimal fd
    key = ground arith

    space_left : (h.set printed.text d.table buf file).0 ≢ 0 → Opens file fd d stored
    space_left space =
        let s = print_key-SameFiles buf d fresh fd ok in
        record {
          was_free = free;
          stands =
              ap (h.get printed.text (h.set printed.text d.table buf file).1) (sym key)
              ∙ h.get-set_self printed.text d.table buf file s.intact space;
          others = λ j ne.
              h.get-set_ne printed.text d.table buf file (p.decimal j) s.intact
                (λ e. ne (p.decimal_injective j fd (e ∙ key)))
              ∙ s.same j;
          intact = h.IsKept-set printed.text d.table buf file s.intact;
          files = refl;
          nodes = refl;
        }

    no_space : (h.set printed.text d.table buf file).0 ≡ 0 → IsLost buf file fd d stored
    no_space full =
        let s = print_key-SameFiles buf d fresh fd ok in
        record {
          was_free = free;
          text = printed.text;
          full = full;
          unchanged = record {
            same = λ j.
                h.get-set_full printed.text d.table buf file (p.decimal j) s.intact real full
                ∙ s.same j;
            intact = h.IsKept-set printed.text d.table buf file s.intact;
            files = refl;
            nodes = refl;
          };
        }

    pub store-Opens : Opens file fd d stored ⊎ IsLost buf file fd d stored
    store-Opens = elim (Bool-cases ((h.set printed.text d.table buf file).0 == 0)) [
      | inl e ↦ inr (no_space (ground arith))
      | inr e ↦ inl (space_left (λ z. ground arith))
    ]

  -- Closing a number, with a buffer that is no key of the table, whose keys are intact: the number
  -- stands for no file any more, and every other for what it stood for. The keys stay intact.
  pub vfs_fdclose-closes :
      (buf fd : ℕ) (d : Descriptors h p)
      → IsFresh buf d
      → IsIntact d
      → (file_at h p fd (vfs_fdclose h p buf fd d) ≡ 0)
        × ((j : ℕ) → j ≢ fd → file_at h p j (vfs_fdclose h p buf fd d) ≡ file_at h p j d)
        × IsIntact (vfs_fdclose h p buf fd d)
  unfolding vfs_fdclose
  vfs_fdclose-closes buf fd d fresh ok =
      let d' = print_key h p buf fd d in
      let s = print_key-SameFiles buf d fresh fd ok in
      (
        h.get-remove_self d'.text d.table (p.decimal fd) s.intact,
        λ j ne.
            h.get-remove_ne d'.text d.table (p.decimal fd) (p.decimal j) s.intact
              (λ e. ne (p.decimal_injective j fd e))
            ∙ s.same j,
        h.IsKept-remove d'.text d.table (p.decimal fd) s.intact,
      )

  -- The file that a number stands for is found with a buffer that is no key, and the numbers stand for
  -- the same files afterwards; a number that stands for none makes the assertion fail.
  pub vfs_int_fd_to_vfs_file-finds :
      (buf fd : ℕ) (d : Descriptors h p)
      → IsFresh buf d
      → IsIntact d
      → ((file_at h p fd d ≡ 0) × (vfs_int_fd_to_vfs_file h p buf fd d ≡ none))
        ⊎ ((file_at h p fd d ≢ 0)
            × (d' : Descriptors h p) × SameFiles d d'
            × (vfs_int_fd_to_vfs_file h p buf fd d ≡ some (file_at h p fd d, d')))
  unfolding vfs_int_fd_to_vfs_file
  vfs_int_fd_to_vfs_file-finds buf fd d fresh ok = split (file_at h p fd d == 0) refl
    where
      d' : Descriptors h p
      d' = print_key h p buf fd d

      s : SameFiles d d'
      s = print_key-SameFiles buf d fresh fd ok

      split :
          (b : Bool)
          → (file_at h p fd d == 0) ≡ b
          → ((file_at h p fd d ≡ 0)
              × ((if◌then◌else◌ {A = Option (ℕ × Descriptors h p)}
                    (file_at h p fd d' == 0)
                    none
                    (some (file_at h p fd d', d')))
                  ≡ none))
            ⊎ ((file_at h p fd d ≢ 0)
                × (e : Descriptors h p) × SameFiles d e
                × ((if◌then◌else◌ {A = Option (ℕ × Descriptors h p)}
                      (file_at h p fd d' == 0)
                      none
                      (some (file_at h p fd d', d')))
                    ≡ some (file_at h p fd d, e)))
      split true e = inl (ground arith, rw (s.same fd, e) refl)
      split false e = inr ((λ z. ground arith), d', s, rw (s.same fd, e) refl)
