-- ===== src/Descriptors/Limits.antt =====
-- Where the table of descriptors of limine-c-template-x86-64/kernel/src/vfs.c is full or grows.
use willow_os.Prelude.{ℕ, ◌+◌, ◌≡◌, ◌≢◌, ◌∙◌, refl, Bool, true, false, List, some, ◌==◌, arith}
use willow_os.Descriptors.{
  OaHash, Printing, OpenBlocks, Descriptors, opened, asserted, print_key, file_at, store_file,
  grow_table, add_file, open_node, path_to_open, vfs_fdopen,
}
use willow_os.Descriptors.Table.{IsIntact, IsFresh, print_key-SameFiles}
use willow_os.Descriptors.Outcomes.{with_file}
use willow_os.Vfs.{Nodes, vfs_resolve_path}

module _ (h : OaHash) (p : Printing) (flags mode : ℕ) (b : OpenBlocks) (d : Descriptors h p) where
  open_node_grown :
      (vnode : ℕ) (s : Nodes)
      → vnode ≢ 0
      → h.length d.table ≡ 33
      → (h.rehash d.text d.table b.new_buckets (h.capacity d.table + 32)).0 ≢ 0
      → b.new_buckets ≢ h.buckets d.table
      → open_node h p flags mode b (some (vnode, s)) d ≡ asserted
  unfolding open_node grow_table
  open_node_grown vnode s real full success ne =
      let bs = h.rehash-buckets d.text d.table b.new_buckets (h.capacity d.table + 32) success in
      let t1 : (vnode == 0) ≡ false = ground arith in
      let t2 : (h.length d.table == 33) ≡ true = ground arith in
      let t3 : ((h.rehash d.text d.table b.new_buckets (h.capacity d.table + 32)).0 == 0) ≡ false =
        ground arith in
      let t4 : ((h.rehash d.text d.table b.new_buckets (h.capacity d.table + 32)).0
            == h.buckets (h.rehash d.text d.table b.new_buckets (h.capacity d.table + 32)).1)
          ≡ false =
        ground arith in
      rw (t1, t2, t3, t4) refl

  open_node_lost :
      (vnode : ℕ) (s : Nodes)
      → vnode ≢ 0
      → h.length d.table ≢ 33
      → IsFresh h p b.key_block d
      → IsIntact h p d
      → b.file_block ≢ 0
      → file_at h p (h.length d.table) d ≡ 0
      → ((text : ℕ → List ℕ) → (h.set text d.table b.key_block b.file_block).0 ≡ 0)
      → (d' : Descriptors h p) × (open_node h p flags mode b (some (vnode, s)) d
          ≡ opened (h.length d.table) d')
        × (file_at h p (h.length d.table) d' ≡ 0)
  unfolding open_node grow_table add_file
  open_node_lost vnode s real small fresh ok real' free full =
      let htlen = h.length d.table in
      let d1 = with_file h p vnode flags mode b s d in
      let d2 = print_key h p b.key_block htlen d1 in
      let same = print_key-SameFiles h p b.key_block d1 fresh htlen ok in
      let t1 : (vnode == 0) ≡ false = ground arith in
      let t2 : (htlen == 33) ≡ false = ground arith in
      let free' : file_at h p htlen d2 ≡ 0 = same.same htlen ∙ free in
      let t3 : (file_at h p htlen d2 == 0) ≡ true = ground arith in
      (
        store_file h p b.key_block b.file_block d2,
        rw (t1, t2, t3) refl,
        h.get-set_full d2.text d.table b.key_block b.file_block (p.decimal htlen) same.intact real'
              (full d2.text)
            ∙ free',
      )

  module _ (block : ℕ → ℕ) (vfs_tmpfs : ℕ) (same_name : List ℕ → List ℕ → Bool) (tmpfs_root : ℕ)
      (path current_dir : List ℕ) (vnode : ℕ) (s : Nodes)
      (found : vfs_resolve_path block vfs_tmpfs same_name tmpfs_root tmpfs_root
          (path_to_open path current_dir)
          d.nodes
        ≡ some (vnode, s))
      (real : vnode ≢ 0) where
    -- With 33 entries in the table, a rehashing into new buckets that succeeds makes the assertion
    -- behind it fail, whatever file is opened.
    pub vfs_fdopen_growth :
        h.length d.table ≡ 33
        → (h.rehash d.text d.table b.new_buckets (h.capacity d.table + 32)).0 ≢ 0
        → b.new_buckets ≢ h.buckets d.table
        → vfs_fdopen h p block vfs_tmpfs same_name true tmpfs_root path current_dir flags mode b d
          ≡ asserted
    unfolding vfs_fdopen
    vfs_fdopen_growth full success ne = rw found (open_node_grown vnode s real full success ne)

    -- With no space left in the table and its length free as a number, vfs_fdopen returns the length
    -- as a number that stands for no file. The table does not have 33 entries and has its keys
    -- intact, the key's buffer is none of them, and the file's block is not NULL.
    pub vfs_fdopen_lost :
        h.length d.table ≢ 33
        → IsFresh h p b.key_block d
        → IsIntact h p d
        → b.file_block ≢ 0
        → file_at h p (h.length d.table) d ≡ 0
        → ((text : ℕ → List ℕ) → (h.set text d.table b.key_block b.file_block).0 ≡ 0)
        → (d' : Descriptors h p) × (vfs_fdopen h p block vfs_tmpfs same_name true tmpfs_root path
              current_dir flags mode b d
            ≡ opened (h.length d.table) d')
          × (file_at h p (h.length d.table) d' ≡ 0)
    unfolding vfs_fdopen
    vfs_fdopen_lost small fresh ok real' free full =
        let lost = open_node_lost vnode s real small fresh ok real' free full in
        (lost.0, rw found lost.1, lost.2)
