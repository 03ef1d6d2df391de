-- ===== src/Vfs.antt =====
-- The nodes of the virtual file system: vfs_resolve_path and vnode_mount_vfs of
-- limine-c-template-x86-64/kernel/src/vfs.c, and the operations that tmpfs.c gives a vnode. A vnode,
-- a mounted file system and an entry are known by their addresses, NULL being 0.
use willow_os.Prelude.{
  ℕ, ◌+◌, Bool, true, false, ◌&&◌, not, Option, none, some, List, [], ◌∷◌, ◌++◌, ◌==◌,
  if◌then◌else◌, ◌>>=◌,
}
use willow_os.Memory.{Memory}
use willow_os.Tmpfs.{
  File, Directory, Entry, file, directory, entry_name, tmpfs_lookup, tmpfs_create_file,
  tmpfs_create_directory, tmpfs_delete_file, tmpfs_delete_directory, tmpfs_write_to_file,
  tmpfs_read_from_file,
}
pub mod Walking
pub mod Paths
pub mod Creating

pub data VnodeType : Type 0 where
  vnon vreg vdir vblk vchr vlnk vsock vbad : VnodeType

-- Which of the function pointers of `vnode_ops_t` are set: none, those of a directory, those of a
-- file.
pub data VnodeOps : Type 0 where
  unset_ops directory_ops regular_ops : VnodeOps

-- The members of `struct vnode` that the code reads.
pub record Vnode : Type 0 where
  pub vnode_type : VnodeType
  pub vnode_ops : VnodeOps
  pub vnode_vfsmountedhere : ℕ
  pub vnode_data : ℕ
  pub mounted_vfs : ℕ

-- `vnode_covered` is that member of `struct vfs`. `allocated` counts the blocks that kmalloc_byte has
-- returned.
pub record Nodes : Type 0 where
  pub vnodes : ℕ → Vnode
  pub vnode_covered : ℕ → ℕ
  pub entries : ℕ → Entry
  pub allocated : ℕ

abbrev pub put_vnode : (ℕ → Vnode) → ℕ → Vnode → ℕ → Vnode
put_vnode vnodes a v x = if x == a then v else vnodes x

unfoldable pub vnode_mount_vfs : (parent_vnode vfs : ℕ) → Nodes → Nodes
vnode_mount_vfs parent_vnode vfs s = record s {
  vnodes = put_vnode s.vnodes parent_vnode (record (s.vnodes parent_vnode) { mounted_vfs = vfs });
}

abbrev pub put_entry : (ℕ → Entry) → ℕ → Entry → ℕ → Entry
put_entry entries a e x = if x == a then e else entries x

abbrev pub ops_of : VnodeType → VnodeOps
ops_of vdir = directory_ops
ops_of vreg = regular_ops
ops_of other = unset_ops

-- The tokens of `strtok_r(path, "/", &save)`, one after the other.
abbrev pub flush : List ℕ → List (List ℕ)
flush [] = []
flush (c ∷ token) = (c ∷ token) ∷ []

unfoldable pub split_from : (token : List ℕ) → List ℕ → List (List ℕ)
split_from token [] = flush token
split_from token (c ∷ rest) = elim (c == 47) [
  | true ↦ flush token ++ split_from [] rest
  | false ↦ split_from (token ++ c ∷ []) rest
]

abbrev pub tokens : (path : List ℕ) → List (List ℕ)
tokens path = split_from [] path

-- `path[0] == '/'`.
abbrev pub is_absolute : (path : List ℕ) → Bool
is_absolute [] = false
is_absolute (c ∷ rest) = c == 47

-- The node that the first token is looked up in.
abbrev pub start_of : (tmpfs_root root_dir : ℕ) (path : List ℕ) → ℕ
start_of tmpfs_root root_dir path = if is_absolute path then tmpfs_root else root_dir

abbrev pub type_of : Entry → VnodeType
type_of (file f) = vreg
type_of (directory d) = vdir

abbrev pub write_entry : (new buffer size offset : ℕ) → Entry → Memory → Option (File × Memory)
write_entry new buffer size offset (file f) m =
    some (tmpfs_write_to_file new buffer size offset f m)
write_entry new buffer size offset (directory d) m = none

abbrev pub read_entry : (buffer size offset : ℕ) → Entry → Memory → Option (ℕ × File × Memory)
read_entry buffer size offset (file f) m = some (tmpfs_read_from_file buffer size offset f m)
read_entry buffer size offset (directory d) m = none

-- What a node of a file reads and writes, in the memory that holds the data: `none` for a directory.
unfoldable pub vnode_tmpfs_write_to_file :
    (new vnode buffer size offset : ℕ) → Nodes → Memory → Option (Nodes × Memory)
vnode_tmpfs_write_to_file new vnode buffer size offset s m =
    let vnode_data = (s.vnodes vnode).vnode_data in
    write_entry new buffer size offset (s.entries vnode_data) m >>= λ r.
    some (record s { entries = put_entry s.entries vnode_data (file r.0) }, r.1)

unfoldable pub vnode_tmpfs_read_from_file :
    (vnode buffer size offset : ℕ) → Nodes → Memory → Option (ℕ × Nodes × Memory)
vnode_tmpfs_read_from_file vnode buffer size offset s m =
    let vnode_data = (s.vnodes vnode).vnode_data in
    read_entry buffer size offset (s.entries vnode_data) m >>= λ r.
    some (r.0, record s { entries = put_entry s.entries vnode_data (file r.1) }, r.2)

-- `block n` is the address of the block that the call number `n` of kmalloc_byte returns, and
-- `vfs_tmpfs` the mounted tmpfs.
module _ (block : ℕ → ℕ) (vfs_tmpfs : ℕ) where
  -- The node's block is taken before that of its operations; a member that is not set keeps what
  -- the block held.
  unfoldable pub tmpfs_link_vnode : (file_object : ℕ) (type : VnodeType) → Nodes → ℕ × Nodes
  tmpfs_link_vnode file_object type s =
      let new_vnode = block s.allocated in
      (
        new_vnode,
        record s {
          vnodes = put_vnode s.vnodes new_vnode (record (s.vnodes new_vnode) {
            vnode_type = type;
            vnode_ops = ops_of type;
            vnode_vfsmountedhere = vfs_tmpfs;
            vnode_data = file_object;
          });
          allocated = s.allocated + 2;
        },
      )

  abbrev pub link_found : (found : ℕ) → Nodes → ℕ × Nodes
  link_found found s =
      if found == 0 then (0, s) else tmpfs_link_vnode found (type_of (s.entries found)) s

  -- `new` and the block of the data are what tmpfs_create_file takes from kmalloc_byte. In a file, or
  -- where tmpfs_create_file writes past the name: `none`.
  abbrev pub file_created :
      (vnode_data new : ℕ) → Option (File × Directory) → Nodes → Option (ℕ × Nodes)
  file_created vnode_data new none s = none
  file_created vnode_data new (some (f, d)) s = some (
      tmpfs_link_vnode new vreg (record s {
        entries = put_entry (put_entry s.entries vnode_data (directory d)) new (file f);
      }))

  abbrev pub create_file_in :
      (vnode_data new data_address : ℕ) (name : List ℕ) (size : ℕ)
      → Entry
      → Nodes
      → Option (ℕ × Nodes)
  create_file_in vnode_data new data_address name size (file f) s = none
  create_file_in vnode_data new data_address name size (directory d) s =
      file_created vnode_data new (tmpfs_create_file new data_address name size d) s

  unfoldable pub vnode_tmpfs_create_file :
      (new data_address vnode : ℕ) (name : List ℕ) (size : ℕ) → Nodes → Option (ℕ × Nodes)
  vnode_tmpfs_create_file new data_address vnode name size s =
      let vnode_data = (s.vnodes vnode).vnode_data in
      create_file_in vnode_data new data_address name size (s.entries vnode_data) s

  abbrev pub directory_created :
      (vnode_data new : ℕ) → Option (Directory × Directory) → Nodes → Option (ℕ × Nodes)
  directory_created vnode_data new none s = none
  directory_created vnode_data new (some (e, d)) s = some (
      tmpfs_link_vnode new vdir (record s {
        entries = put_entry (put_entry s.entries vnode_data (directory d)) new (directory e);
      }))

  abbrev pub create_directory_in :
      (vnode_data new : ℕ) (name : List ℕ) → Entry → Nodes → Option (ℕ × Nodes)
  create_directory_in vnode_data new name (file f) s = none
  create_directory_in vnode_data new name (directory d) s =
      directory_created vnode_data new (tmpfs_create_directory new name d) s

  unfoldable pub vnode_tmpfs_create_directory :
      (new vnode : ℕ) (name : List ℕ) → Nodes → Option (ℕ × Nodes)
  vnode_tmpfs_create_directory new vnode name s =
      let vnode_data = (s.vnodes vnode).vnode_data in
      create_directory_in vnode_data new name (s.entries vnode_data) s

  module _ (same_name : List ℕ → List ℕ → Bool) where
    abbrev pub delete_file_in : (name : List ℕ) → Entry → Nodes → Option Directory
    delete_file_in name (file f) s = none
    delete_file_in name (directory d) s = some (tmpfs_delete_file same_name name s.entries d)

    unfoldable pub vnode_tmpfs_delete_file : (vnode : ℕ) (name : List ℕ) → Nodes → Option Nodes
    vnode_tmpfs_delete_file vnode name s =
        let vnode_data = (s.vnodes vnode).vnode_data in
        delete_file_in name (s.entries vnode_data) s >>= λ d.
        some (record s { entries = put_entry s.entries vnode_data (directory d) })

    abbrev pub delete_directory_in : (name : List ℕ) → Entry → Nodes → Option Directory
    delete_directory_in name (file f) s = none
    delete_directory_in name (directory d) s =
        some (tmpfs_delete_directory same_name name s.entries d)

    unfoldable pub vnode_tmpfs_delete_directory : (vnode : ℕ) (name : List ℕ) → Nodes → Option Nodes
    vnode_tmpfs_delete_directory vnode name s =
        let vnode_data = (s.vnodes vnode).vnode_data in
        delete_directory_in name (s.entries vnode_data) s >>= λ d.
        some (record s { entries = put_entry s.entries vnode_data (directory d) })

    -- A lookup in what is no directory reads a file as one: `none`.
    abbrev pub lookup_in : Entry → (name : List ℕ) → Nodes → Option (ℕ × Nodes)
    lookup_in (file f) name s = none
    lookup_in (directory d) name s = some (link_found (tmpfs_lookup same_name name s.entries d) s)

    -- The name of the root of the file system that is mounted on the node is `name`.
    abbrev pub is_mount : (vnode : Vnode) (name : List ℕ) → Nodes → Bool
    is_mount vnode name s =
        not (vnode.mounted_vfs == 0)
        && same_name
            (entry_name (s.entries (s.vnodes (s.vnode_covered vnode.mounted_vfs)).vnode_data)) name

    -- A read through NULL is `none`.
    unfoldable pub vnode_tmpfs_lookup : (vnode : ℕ) (name : List ℕ) → Nodes → Option (ℕ × Nodes)
    vnode_tmpfs_lookup vnode name s =
        let v = s.vnodes vnode in
        if vnode == 0
        then none
        else if is_mount v name s
        then some (s.vnode_covered v.mounted_vfs, s)
        else lookup_in (s.entries v.vnode_data) name s

    -- `root_dir->vnode_ops->vnode_lookup(ret, tok)`: a call through a pointer that is not set is
    -- `none`.
    abbrev pub lookup_by : VnodeOps → (ret : ℕ) (tok : List ℕ) → Nodes → Option (ℕ × Nodes)
    lookup_by directory_ops ret tok s = vnode_tmpfs_lookup ret tok s
    lookup_by unset_ops ret tok s = none
    lookup_by regular_ops ret tok s = none

    unfoldable pub resolve_tokens :
        (root_dir ret : ℕ) (toks : List (List ℕ)) → Nodes → Option (ℕ × Nodes)
    resolve_tokens root_dir ret [] s = some (ret, s)
    resolve_tokens root_dir ret (tok ∷ toks) s =
        lookup_by (s.vnodes root_dir).vnode_ops ret tok s >>= λ r.
        resolve_tokens root_dir r.0 toks r.1

    unfoldable pub vfs_resolve_path :
        (tmpfs_root root_dir : ℕ) (path : List ℕ) → Nodes → Option (ℕ × Nodes)
    vfs_resolve_path tmpfs_root root_dir path s =
        let start = start_of tmpfs_root root_dir path in resolve_tokens start start (tokens path) s
