-- ===== src/Descriptors/Lifetime.antt =====
-- A number of limine-c-template-x86-64/kernel/src/vfs.c from its opening on: while other numbers are
-- opened, closed and looked up, for a full table, and where the table grows.
use willow_os.Prelude.{ℕ, ◌≡◌, ◌≢◌, Bool, true, List, some}
use willow_os.Descriptors.{
  OaHash, Printing, OpenBlocks, Descriptors, opened, file_at, vfs_fdopen, vfs_fdclose,
  vfs_int_fd_to_vfs_file,
}
use willow_os.Descriptors.Table.{IsIntact, IsFresh}

module _ (h : OaHash) (p : Printing) where
  -- Calls that leave a number open: openings, lookups, and the closing of other numbers.
  pub data KeepsOpen (fd : ℕ) : Descriptors h p → Descriptors h p → Type 1 where
    done : {d : Descriptors h p} → KeepsOpen fd d d
    open_file :
        {d d' d'' : Descriptors h p} (block : ℕ → ℕ) (vfs_tmpfs : ℕ)
        (same_name : List ℕ → List ℕ → Bool) (tmpfs_root : ℕ) (path current_dir : List ℕ)
        (flags mode new_fd : ℕ) (b : OpenBlocks)
        → h.length d.table ≢ 33
        → b.file_block ≢ 0
        → IsFresh h p b.key_block d
        → vfs_fdopen h p block vfs_tmpfs same_name true tmpfs_root path current_dir flags mode b d
          ≡ opened new_fd d'
        → KeepsOpen fd d' d''
        → KeepsOpen fd d d''
    look_up :
        {d d' d'' : Descriptors h p} (buf other file : ℕ)
        → IsFresh h p buf d
        → vfs_int_fd_to_vfs_file h p buf other d ≡ some (file, d')
        → KeepsOpen fd d' d''
        → KeepsOpen fd d d''
    close_other :
        {d d'' : Descriptors h p} (buf other : ℕ)
        → IsFresh h p buf d
        → other ≢ fd
        → KeepsOpen fd (vfs_fdclose h p buf other d) d''
        → KeepsOpen fd d d''

  -- What one call leaves of a number.
  Stays : (fd : ℕ) (d d' : Descriptors h p) → Type 0
  Stays fd d d' = (file_at h p fd d' ≡ file_at h p fd d) × IsIntact h p d'
