-- ===== src/Descriptors/Adding.antt =====
-- A file in the table of descriptors of limine-c-template-x86-64/kernel/src/vfs.c: the search of
-- vfs_fdopen for a number.
use willow_os.Prelude.{
  ℕ, zero, suc, ◌+◌, ◌≡◌, ◌≢◌, ◌<◌, ◌∙◌, ap, refl, sym, ◌⊎◌, inl, inr, Bool, true, false, ◌==◌,
  if◌then◌else◌, arith, Bool-cases,
}
use willow_os.Descriptors.{
  OaHash, Printing, Descriptors, Opening, opened, refused, asserted, faulted, no_value, print_key,
  file_at, store_file, first_free, add_file,
}
use willow_os.Descriptors.Table.{
  IsIntact, IsFresh, SameFiles, Opens, IsLost, SameFiles-trans, print_key-SameFiles, store-Opens,
}

module _ (h : OaHash) (p : Printing) where
  -- What opening does: a number that was free is given out, and it stands for the file or the table was
  -- full; or every number below the capacity is taken, and the function ends without a value.
  abbrev pub Added : (buf file : ℕ) (d : Descriptors h p) → Opening h p → Type 0
  Added buf file d (opened fd d') = Opens h p file fd d d' ⊎ IsLost h p buf file fd d d'
  Added buf file d (no_value d') =
      ((j : ℕ) → j < h.capacity d.table → file_at h p j d ≢ 0) × SameFiles h p d d'
  Added buf file d refused = ⊥
  Added buf file d asserted = ⊥
  Added buf file d faulted = ⊥

  Opens-from :
      {file fd : ℕ} {d d' d'' : Descriptors h p}
      → SameFiles h p d d'
      → Opens h p file fd d' d''
      → Opens h p file fd d d''
  Opens-from {fd = fd} s o = record {
    was_free = sym (s.same fd) ∙ o.was_free;
    stands = o.stands;
    others = λ j ne. o.others j ne ∙ s.same j;
    intact = o.intact;
    files = o.files ∙ s.files;
    nodes = o.nodes ∙ s.nodes;
  }

  module _ (buf file : ℕ) (real : file ≢ 0) where
    Added-print :
        (i : ℕ) (d : Descriptors h p) (o : Opening h p)
        → SameFiles h p d (print_key h p buf i d)
        → Added buf file (print_key h p buf i d) o
        → Added buf file d o
    Added-print i d (opened fd d') s (inl o) = inl (Opens-from s o)
    Added-print i d (opened fd d') s (inr l) = inr (record {
      was_free = sym (s.same fd) ∙ l.was_free;
      text = l.text;
      full = l.full;
      unchanged = SameFiles-trans h p s l.unchanged;
    })
    Added-print i d (no_value d') s (taken, t) =
        (λ j below z. taken j below (s.same j ∙ z), SameFiles-trans h p s t)
    Added-print i d refused s a = elim a [ ]
    Added-print i d asserted s a = elim a [ ]
    Added-print i d faulted s a = elim a [ ]

    first_free-Added :
        (rounds i : ℕ) (d : Descriptors h p)
        → IsFresh h p buf d
        → IsIntact h p d
        → ((j : ℕ) → j < i → file_at h p j d ≢ 0)
        → i + rounds ≡ h.capacity d.table
        → Added buf file d (first_free h p rounds i buf file d)
    unfolding first_free
    first_free-Added zero i d fresh ok taken all = (
      λ j below. taken j (omega arith),
      record { same = λ j. refl; intact = ok; files = refl; nodes = refl },
    )
    first_free-Added (suc rounds) i d fresh ok taken all = split (file_at h p i d' == 0) refl (λ e.
        first_free-Added rounds (i + 1) d' fresh s.intact (λ j lt. below e j (omega arith))
          (omega arith))
      where
        d' : Descriptors h p
        d' = print_key h p buf i d

        s : SameFiles h p d d'
        s = print_key-SameFiles h p buf d fresh i ok

        below : (file_at h p i d' == 0) ≡ false → (j : ℕ) → j < suc i → file_at h p j d' ≢ 0
        below e j lt z = elim (Bool-cases (j == i)) [
          | inl last ↦ absurd (ground (arith, ap (λ n. file_at h p n d') (same_number last)))
          | inr earlier ↦ taken j (ground arith) (sym (s.same j) ∙ z)
        ]
          where
            same_number : (j == i) ≡ true → j ≡ i
            same_number e = ground arith

        split :
            (b : Bool)
            → (file_at h p i d' == 0) ≡ b
            → ((file_at h p i d' == 0) ≡ false
                → Added buf file d' (first_free h p rounds (i + 1) buf file d'))
            → Added buf file d (
                if b
                then opened i (store_file h p buf file d')
                else first_free h p rounds (i + 1) buf file d')
        split true e later =
            store-Opens h p buf file i d fresh ok real (sym (s.same i) ∙ ground arith)
        split false e later =
            Added-print i d (first_free h p rounds (i + 1) buf file d') s (later e)

    pub add_file-Added :
        (d : Descriptors h p)
        → IsFresh h p buf d
        → IsIntact h p d
        → Added buf file d (add_file h p buf file d)
    unfolding add_file
    add_file-Added d fresh ok = split (file_at h p htlen d' == 0) refl
      where
        htlen : ℕ
        htlen = h.length d.table

        d' : Descriptors h p
        d' = print_key h p buf htlen d

        s : SameFiles h p d d'
        s = print_key-SameFiles h p buf d fresh htlen ok

        split :
            (b : Bool)
            → (file_at h p htlen d' == 0) ≡ b
            → Added buf file d (
                if b
                then opened htlen (store_file h p buf file d')
                else first_free h p (h.capacity d.table) 0 buf file d')
        split true e =
            store-Opens h p buf file htlen d fresh ok real (sym (s.same htlen) ∙ ground arith)
        split false e = Added-print htlen d (first_free h p (h.capacity d.table) 0 buf file d') s (
            first_free-Added (h.capacity d.table) 0 d' fresh s.intact (λ j lt z. elim lt [ ])
              (omega arith))
