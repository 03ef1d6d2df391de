-- ===== src/Descriptors/Outcomes.antt =====
-- What vfs_fdopen of limine-c-template-x86-64/kernel/src/vfs.c ends in, and what happens to a number
-- while others are opened and closed.
use willow_os.Prelude.{
  ℕ, ◌≡◌, ◌≢◌, refl, sym, Bool, true, false, List, Option, none, some, ◌==◌, if◌then◌else◌, arith,
}
use mathlib.Core.Path.{subst}
use willow_os.Descriptors.{
  OaHash, Printing, OpenBlocks, put_file, Descriptors, Opening, refused, asserted, faulted,
  grow_table, new_file, add_grown, open_node, path_to_open, vfs_fdopen,
}
use willow_os.Descriptors.Table.{IsIntact, IsFresh}
use willow_os.Descriptors.Adding.{Added, add_file-Added}
use willow_os.Vfs.{Nodes, vfs_resolve_path}

module _ (h : OaHash) (p : Printing) where
  -- The open file is set up before it gets its number.
  abbrev pub with_file :
      (vnode flags mode : ℕ) → OpenBlocks → Nodes → Descriptors h p → Descriptors h p
  with_file vnode flags mode b s d = record d {
    files = put_file d.files b.file_block (new_file h p vnode flags mode b);
    nodes = s;
  }

  -- What vfs_fdopen ends in, by what the path resolves to.
  pub data Outcome (flags mode : ℕ) (b : OpenBlocks) (d : Descriptors h p) (started : Bool)
      (resolved : Option (ℕ × Nodes)) (o : Opening h p) : Type 0 where
    too_early : started ≡ false → o ≡ refused → Outcome flags mode b d started resolved o
    through_null :
        started ≡ true → resolved ≡ none → o ≡ faulted → Outcome flags mode b d started resolved o
    missing :
        {s : Nodes}
        → started ≡ true
        → resolved ≡ some (0, s)
        → o ≡ asserted
        → Outcome flags mode b d started resolved o
    added :
        {vnode : ℕ} {s : Nodes}
        → started ≡ true
        → resolved ≡ some (vnode, s)
        → vnode ≢ 0
        → Added h p b.key_block b.file_block (with_file vnode flags mode b s d) o
        → Outcome flags mode b d started resolved o

  module _ (flags mode : ℕ) (b : OpenBlocks) (d : Descriptors h p) (small : h.length d.table ≢ 33)
      (real : b.file_block ≢ 0) (fresh : IsFresh h p b.key_block d) (ok : IsIntact h p d) where
    grow_table_small :
        (vnode : ℕ) (s : Nodes)
        → grow_table h p b.new_buckets (with_file vnode flags mode b s d)
          ≡ some (with_file vnode flags mode b s d)
    unfolding grow_table
    grow_table_small vnode s = rw test refl
      where
        test : (h.length d.table == 33) ≡ false
        test = ground arith

    open_node-Outcome :
        (resolved : Option (ℕ × Nodes))
        → Outcome flags mode b d true resolved (open_node h p flags mode b resolved d)
    unfolding open_node
    open_node-Outcome none = through_null refl refl refl
    open_node-Outcome (some (vnode, s)) = split (vnode == 0) refl
      where
        split :
            (t : Bool)
            → (vnode == 0) ≡ t
            → Outcome flags mode b d true (some (vnode, s)) (
                if t
                then asserted
                else add_grown h p b.key_block b.file_block
                    (grow_table h p b.new_buckets (with_file vnode flags mode b s d)))
        split true e = missing {s = s} refl (ground arith) refl
        split false e =
            added {vnode = vnode} {s = s} refl refl (λ z. ground arith)
              (subst
                (λ g.
                  Added h p b.key_block b.file_block (with_file vnode flags mode b s d)
                    (add_grown h p b.key_block b.file_block g))
                (sym (grow_table_small vnode s))
                (add_file-Added h p b.key_block b.file_block real (with_file vnode flags mode b s d)
                  fresh ok))

    -- Before scheduling has started vfs_fdopen returns -1; a path through NULL or a file is followed;
    -- a path to nothing stops the machine by an assertion; and else a number that was free is given
    -- out and stands for the new file, unless the table was full, or the function ends without a
    -- value, all numbers below the capacity being taken. The table does not have 33 entries and has
    -- its keys intact, the key's buffer is none of them, and the file's block is not NULL.
    pub vfs_fdopen-Outcome :
        (block : ℕ → ℕ) (vfs_tmpfs : ℕ) (same_name : List ℕ → List ℕ → Bool) (started : Bool)
        (tmpfs_root : ℕ) (path current_dir : List ℕ)
        → Outcome flags mode b d started
            (vfs_resolve_path block vfs_tmpfs same_name tmpfs_root tmpfs_root
              (path_to_open path current_dir)
              d.nodes)
            (vfs_fdopen h p block vfs_tmpfs same_name started tmpfs_root path current_dir flags mode
              b d)
    unfolding vfs_fdopen
    vfs_fdopen-Outcome block vfs_tmpfs same_name true tmpfs_root path current_dir =
        open_node-Outcome (
          vfs_resolve_path block vfs_tmpfs same_name tmpfs_root tmpfs_root
            (path_to_open path current_dir) d.nodes)
    vfs_fdopen-Outcome block vfs_tmpfs same_name false tmpfs_root path current_dir =
        too_early refl refl
