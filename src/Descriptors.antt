-- ===== src/Descriptors.antt =====
-- The descriptors of open files: vfs_fdopen, vfs_fdclose and vfs_int_fd_to_vfs_file of
-- limine-c-template-x86-64/kernel/src/vfs.c. The table is the hash table oa_hash, which holds the
-- addresses of its keys' texts and not the texts; NULL is 0.
use willow_os.Prelude.{
  ℕ, zero, suc, ◌+◌, ◌≡◌, ◌≢◌, ◌⊎◌, Bool, true, false, Option, none, some, List, [], ◌∷◌, ◌++◌,
  ◌==◌, if◌then◌else◌, ◌>>=◌,
}
use willow_os.Memory.{Memory}
use willow_os.Vfs.{
  VnodeOps, unset_ops, directory_ops, regular_ops, Nodes, is_absolute, vfs_resolve_path,
  vnode_tmpfs_read_from_file, vnode_tmpfs_write_to_file,
}
mod Interface
pub use Interface.{OaHash, Printing}
pub mod Table
pub mod Adding
pub mod Outcomes
pub mod Lifetime
pub mod Limits
pub mod Contents

-- `struct vfs_file`; its mutex is released and its `abs_path` NULL when it is opened.
pub record OpenFile : Type 0 where
  pub vnode : ℕ
  pub locked : Bool
  pub file_ops : ℕ
  pub flags : ℕ
  pub mode : ℕ
  pub position : ℕ
  pub abs_path : ℕ

abbrev pub put_file : (ℕ → OpenFile) → ℕ → OpenFile → ℕ → OpenFile
put_file files a f x = if x == a then f else files x

abbrev pub put_text : (ℕ → List ℕ) → ℕ → List ℕ → ℕ → List ℕ
put_text text a t x = if x == a then t else text x

-- The blocks that a call takes from kmalloc_byte.
pub record OpenBlocks : Type 0 where
  pub file_block : ℕ
  pub ops_block : ℕ
  pub new_buckets : ℕ
  pub key_block : ℕ

-- What a relative path is made to: `strcat` puts the current directory behind it.
abbrev pub path_to_open : (path current_dir : List ℕ) → List ℕ
path_to_open path current_dir = if is_absolute path then path else path ++ current_dir

-- `file->vnode->vnode_ops->vnode_rd(…)` and `…->vnode_wr(…)`: `none` where the pointer is not set.
abbrev pub read_by :
    VnodeOps → (vnode buffer size offset : ℕ) → Nodes → Memory → Option (ℕ × Nodes × Memory)
read_by regular_ops vnode buffer size offset s m =
    vnode_tmpfs_read_from_file vnode buffer size offset s m
read_by directory_ops vnode buffer size offset s m = none
read_by unset_ops vnode buffer size offset s m = none

abbrev pub write_by :
    VnodeOps → (new vnode buffer size offset : ℕ) → Nodes → Memory → Option (Nodes × Memory)
write_by regular_ops new vnode buffer size offset s m =
    vnode_tmpfs_write_to_file new vnode buffer size offset s m
write_by directory_ops new vnode buffer size offset s m = none
write_by unset_ops new vnode buffer size offset s m = none

unfoldable pub pread :
    OpenFile → (buffer size offset : ℕ) → Nodes → Memory → Option (ℕ × Nodes × Memory)
pread f buffer size offset s m = read_by (s.vnodes f.vnode).vnode_ops f.vnode buffer size offset s m

unfoldable pub pwrite :
    OpenFile → (new buffer size offset : ℕ) → Nodes → Memory → Option (Nodes × Memory)
pwrite f new buffer size offset s m =
    write_by (s.vnodes f.vnode).vnode_ops new f.vnode buffer size offset s m

module _ (h : OaHash) (p : Printing) where
  open h use {Table, length, capacity, buckets, with_buckets, get, set, remove, rehash}
  open p use {decimal}

  -- The running thread's table, what the buffers hold, the open files and the nodes.
  pub record Descriptors : Type 0 where
    pub table : Table
    pub text : ℕ → List ℕ
    pub files : ℕ → OpenFile
    pub nodes : Nodes

  -- A call returns a number; -1 is `refused`; an assertion stops the machine; a pointer that is NULL
  -- or not set is followed; or the function ends without a value.
  pub data Opening : Type 0 where
    opened : (fd : ℕ) → Descriptors → Opening
    refused : Opening
    asserted : Opening
    faulted : Opening
    no_value : Descriptors → Opening

  -- `npf_snprintf(buf, 64, "%d", fd)`.
  abbrev pub print_key : (buf fd : ℕ) → Descriptors → Descriptors
  print_key buf fd d = record d { text = put_text d.text buf (decimal fd) }

  -- `oa_hash_get(ht, buf, len)`, where `buf` holds the number.
  abbrev pub file_at : (fd : ℕ) → Descriptors → ℕ
  file_at fd d = get d.text d.table (decimal fd)

  abbrev pub store_file : (buf file : ℕ) → Descriptors → Descriptors
  store_file buf file d = record d { table = (set d.text d.table buf file).1 }

  -- What the rehashing returns, and the table behind it: `none` where the assertion fails.
  abbrev pub adopt : (old_buckets new_buckets : ℕ) → Table → Option Table
  adopt old_buckets new_buckets t =
      if old_buckets == 0
      then some t
      else if old_buckets == buckets t
      then some (with_buckets t new_buckets)
      else none

  unfoldable pub grow_table : (new_buckets : ℕ) → Descriptors → Option Descriptors
  grow_table new_buckets d =
      let (old_buckets, t) = rehash d.text d.table new_buckets (capacity d.table + 32) in
      if length d.table == 33
      then adopt old_buckets new_buckets t >>= (λ t. some (record d { table = t }))
      else some d

  -- The loop over the numbers from `i` on, `rounds` of them.
  unfoldable pub first_free : (rounds i buf file : ℕ) → Descriptors → Opening
  first_free zero i buf file d = no_value d
  first_free (suc rounds) i buf file d =
      let d' = print_key buf i d in
      let rest = first_free rounds (i + 1) buf file d' in
      if file_at i d' == 0 then opened i (store_file buf file d') else rest

  -- The length of the table as a number if it is free, or the first number that is.
  unfoldable pub add_file : (buf file : ℕ) → Descriptors → Opening
  unfolding first_free
  add_file buf file d =
      let htlen = length d.table in
      let d' = print_key buf htlen d in
      if file_at htlen d' == 0
      then opened htlen (store_file buf file d')
      else first_free (capacity d.table) 0 buf file d'

  abbrev pub new_file : (vnode flags mode : ℕ) → OpenBlocks → OpenFile
  new_file vnode flags mode b = record {
    vnode = vnode;
    locked = false;
    file_ops = b.ops_block;
    flags = flags;
    mode = mode;
    position = 0;
    abs_path = 0;
  }

  abbrev pub add_grown : (buf file : ℕ) → Option Descriptors → Opening
  add_grown buf file none = asserted
  add_grown buf file (some d) = add_file buf file d

  -- From the node that the path resolves to.
  unfoldable pub open_node :
      (flags mode : ℕ) → OpenBlocks → Option (ℕ × Nodes) → Descriptors → Opening
  unfolding grow_table add_file
  open_node flags mode b none d = faulted
  open_node flags mode b (some (v, s)) d =
      if v == 0
      then asserted
      else add_grown b.key_block b.file_block (
          grow_table b.new_buckets (record d {
            files = put_file d.files b.file_block (new_file v flags mode b);
            nodes = s;
          }))

  -- `path` is resolved from tmpfs_root, an absolute path as it stands.
  unfoldable pub vfs_fdopen :
      (block : ℕ → ℕ) (vfs_tmpfs : ℕ) (same_name : List ℕ → List ℕ → Bool)
      (scheduling_started : Bool) (tmpfs_root : ℕ) (path current_dir : List ℕ) (flags mode : ℕ)
      → OpenBlocks
      → Descriptors
      → Opening
  unfolding open_node
  vfs_fdopen block vfs_tmpfs same_name started tmpfs_root path current_dir flags mode b d =
      if started
      then open_node flags mode b
          (vfs_resolve_path block vfs_tmpfs same_name tmpfs_root tmpfs_root
            (path_to_open path current_dir) d.nodes)
          d
      else refused

  -- The file of a number: `none` where the assertion fails.
  unfoldable pub vfs_int_fd_to_vfs_file : (buf fd : ℕ) → Descriptors → Option (ℕ × Descriptors)
  vfs_int_fd_to_vfs_file buf fd d =
      let d' = print_key buf fd d in if file_at fd d' == 0 then none else some (file_at fd d', d')

  -- The table without the number, as it stands when the blocks of the file and of its operations have
  -- been freed.
  unfoldable pub vfs_fdclose : (buf fd : ℕ) → Descriptors → Descriptors
  vfs_fdclose buf fd d =
      let d' = print_key buf fd d in record d' { table = remove d'.text d'.table (decimal fd) }

  -- The two calls through a number, which look it up with a buffer of their own, `buf`.
  unfoldable pub fd_pread :
      (buf fd buffer size offset : ℕ) → Descriptors → Memory → Option (ℕ × Descriptors × Memory)
  unfolding vfs_int_fd_to_vfs_file pread
  fd_pread buf fd buffer size offset d m = vfs_int_fd_to_vfs_file buf fd d >>= λ r.
      pread (d.files r.0) buffer size offset d.nodes m >>= λ q.
      some (q.0, record (r.1) { nodes = q.1 }, q.2)

  unfoldable pub fd_pwrite :
      (buf fd new buffer size offset : ℕ) → Descriptors → Memory → Option (Descriptors × Memory)
  unfolding vfs_int_fd_to_vfs_file pwrite
  fd_pwrite buf fd new buffer size offset d m = vfs_int_fd_to_vfs_file buf fd d >>= λ r.
      pwrite (d.files r.0) new buffer size offset d.nodes m >>= λ q.
      some (record (r.1) { nodes = q.0 }, q.1)
