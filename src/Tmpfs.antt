-- ===== src/Tmpfs.antt =====
-- The file system in memory: limine-c-template-x86-64/kernel/src/tmpfs.c. A directory holds the
-- addresses of its entries, NULL being 0; what stands at an address is a file or a directory.
use willow_os.Prelude.{
  ℕ, zero, suc, ◌+◌, ◌-◌, ◌*◌, ◌%◌, ◌^◌, Bool, true, false, ◌&&◌, not, Option, none, some, List, [],
  ◌∷◌, ◌++◌, ◌==◌, ltb, leb, if◌then◌else◌, replicate, length, set, get_or,
}
use willow_os.Memory.{Memory, memcpy}
use willow_os.Mutex.{release_mutex}
pub mod Slots
pub mod Entries
pub mod Adding
pub mod Lookup
pub mod Contents

-- `tmpfs_header_t` without its path, its times and its user and group, which are 0; `type` is
-- the constructor of `Entry`.
pub record Header : Type 0 where
  pub permissions : List ℕ
  pub name : List ℕ
  pub fs_type : List ℕ
  pub locked : Bool

pub record File : Type 0 where
  pub header : Header
  pub size : ℕ
  pub data_address : ℕ
  pub open_count : ℕ

pub record Directory : Type 0 where
  pub header : Header
  pub files : List ℕ
  pub max_files : ℕ
  pub num_files : ℕ

pub data Entry : Type 0 where
  file : File → Entry
  directory : Directory → Entry

-- The bytes of "rwx" and of "tmpfs".
abbrev pub new_header : (name : List ℕ) → Header
new_header name = record {
  permissions = 114 ∷ 119 ∷ 120 ∷ [];
  name = name;
  fs_type = 116 ∷ 109 ∷ 112 ∷ 102 ∷ 115 ∷ [];
  locked = false;
}

abbrev pub entry_name : Entry → List ℕ
entry_name (file f) = f.header.name
entry_name (directory d) = d.header.name

-- The first NULL slot of the array, from index `i` on; 0 if there is none.
unfoldable pub search_null : (i : ℕ) → List ℕ → ℕ
search_null i [] = 0
search_null i (f ∷ rest) = let later = search_null (i + 1) rest in if f == 0 then i else later

unfoldable pub free_index : List ℕ → ℕ
free_index files = if get_or files 0 0 == 0 then 0 else search_null 0 files

-- A full array of entries grows by 32 NULL slots.
unfoldable pub grow : Directory → Directory
grow dir =
    if dir.num_files == dir.max_files
    then (record dir { max_files = dir.max_files + 32; files = dir.files ++ replicate 32 0 })
    else dir

-- The entry at `new` goes into the free slot, under the directory's mutex.
unfoldable pub add_entry : (new : ℕ) → Directory → Directory
add_entry new dir =
    let dir' = grow (record dir {
      header = record (dir.header) { locked = true };
      files = set dir.files (free_index dir.files) new;
      num_files = dir.num_files + 1;
    }) in
    record dir' { header = record (dir'.header) { locked = release_mutex true } }

-- A name of more than 127 bytes does not fit into the header: `none`.
unfoldable pub tmpfs_create_file :
    (new data_address : ℕ) (name : List ℕ) (size : ℕ) → Directory → Option (File × Directory)
tmpfs_create_file new data_address name size dir =
    if leb (length name) 127
    then some (
      record { header = new_header name; size = size; data_address = data_address; open_count = 0 },
      add_entry new dir,
    )
    else none

-- The last loop clears as many slots of the new directory as its parent has, and the new one has 32
-- slots: `none` if it writes past them.
unfoldable pub tmpfs_create_directory :
    (new : ℕ) (name : List ℕ) → Directory → Option (Directory × Directory)
tmpfs_create_directory new name dir =
    if leb (length name) 127 && leb dir.max_files 32
    then some (
      record { header = new_header name; files = replicate 32 0; max_files = 32; num_files = 0 },
      add_entry new dir,
    )
    else none

abbrev pub drop_entry : (i : ℕ) → Directory → Directory
drop_entry i dir = record dir {
  header = record (dir.header) { locked = release_mutex true };
  files = set dir.files i 0;
  num_files = (dir.num_files + 2 ^ 64 - 1) % 2 ^ 64;
}

-- The index of the first entry that is not NULL and passes a test.
unfoldable pub find_entry : (test : Entry → Bool) (entries : ℕ → Entry) (i : ℕ) → List ℕ → Option ℕ
find_entry test entries i [] = none
find_entry test entries i (f ∷ rest) =
    let later = find_entry test entries (i + 1) rest in
    if f == 0 then later else (if test (entries f) then some i else later)

abbrev pub unless_open : (i : ℕ) → Entry → Directory → Directory
unless_open i (file f) dir = if f.open_count == 0 then drop_entry i dir else dir
unless_open i (directory d) dir = drop_entry i dir

abbrev pub delete_found : (entries : ℕ → Entry) → Directory → Option ℕ → Directory
delete_found entries dir none = dir
delete_found entries dir (some i) = unless_open i (entries (get_or dir.files i 0)) dir

abbrev pub found : Directory → Option ℕ → ℕ
found dir none = 0
found dir (some i) = get_or dir.files i 0

module _ (same_name : List ℕ → List ℕ → Bool) where
  -- `strcmp(name, …) == 0`, and the type.
  abbrev pub is_file : (name : List ℕ) → Entry → Bool
  is_file name (file f) = same_name f.header.name name
  is_file name (directory d) = false

  abbrev pub is_directory : (name : List ℕ) → Entry → Bool
  is_directory name (file f) = false
  is_directory name (directory d) = same_name d.header.name name

  abbrev pub has_name : (name : List ℕ) → Entry → Bool
  has_name name e = same_name (entry_name e) name

  unfoldable pub tmpfs_delete_file : (name : List ℕ) (entries : ℕ → Entry) → Directory → Directory
  tmpfs_delete_file name entries dir =
      delete_found entries dir (find_entry (is_file name) entries 0 dir.files)

  unfoldable pub tmpfs_delete_directory :
      (name : List ℕ) (entries : ℕ → Entry) → Directory → Directory
  tmpfs_delete_directory name entries dir =
      delete_found entries dir (find_entry (is_directory name) entries 0 dir.files)

  -- The address of the entry, NULL if there is none.
  unfoldable pub tmpfs_lookup : (name : List ℕ) (entries : ℕ → Entry) → Directory → ℕ
  tmpfs_lookup name entries dir = found dir (find_entry (has_name name) entries 0 dir.files)

-- `new` is the block that `kmalloc_byte` returns if the file has to grow.
unfoldable pub tmpfs_write_to_file : (new buffer size offset : ℕ) → File → Memory → File × Memory
tmpfs_write_to_file new buffer size offset f m =
    let longer = (offset + size) % 2 ^ 64 in
    let grows = ltb f.size longer in
    let kept = if f.data_address == 0 then m else memcpy new f.data_address f.size m in
    let f' = if grows then record f { data_address = new; size = longer } else f in
    let m' = if grows then kept else m in
    (
      record f' { header = record (f'.header) { locked = release_mutex true } },
      memcpy (f'.data_address + offset) buffer size m',
    )

unfoldable pub tmpfs_read_from_file : (buffer size offset : ℕ) → File → Memory → ℕ × File × Memory
tmpfs_read_from_file buffer size offset f m =
    let count = f.size - offset in
    let count' = if ltb size count then size else count in
    if leb f.size offset then (1, f, m) else (
      count',
      record f { header = record (f.header) { locked = release_mutex true } },
      memcpy buffer (f.data_address + offset) count' m,
    )
