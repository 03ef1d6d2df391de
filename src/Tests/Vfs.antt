-- ===== src/Tests/Vfs.antt =====
-- A tree of two directories and a file, and the theorems on the nodes of vfs.c and tmpfs.c at it.
use willow_os.Prelude.{
  ℕ, ◌+◌, ◌≡◌, refl, true, false, Bool, ◌&&◌, some, List, [], ◌∷◌, ◌==◌, if◌then◌else◌, arith, inr,
}
use willow_os.Tmpfs.{find_entry, tmpfs_lookup, File, Directory, Entry, file, directory, new_header}
use willow_os.Tmpfs.Entries.{IsDirectory}
use willow_os.Vfs.{
  resolve_tokens, split_from, tmpfs_link_vnode, vdir, vreg, directory_ops, Nodes, tokens,
  vfs_resolve_path, vnode_tmpfs_create_file, vnode_tmpfs_lookup,
}
use willow_os.Vfs.Walking.{IsPlain, entry_reached, follow, vfs_resolve_path-follow}
use willow_os.Vfs.Creating.{HasNo, StandsFor, vnode_tmpfs_create_file-lookup}

abbrev pub note : File
note = record { header = new_header (98 ∷ []); size = 4; data_address = 900; open_count = 0 }

abbrev pub root_directory : Directory
root_directory = record {
  header = new_header (114 ∷ []);
  files = 0 ∷ 600 ∷ 0 ∷ [];
  max_files = 3;
  num_files = 1;
}

abbrev pub inner_directory : Directory
inner_directory = record {
  header = new_header (97 ∷ []);
  files = 700 ∷ 0 ∷ [];
  max_files = 2;
  num_files = 1;
}

abbrev pub tree : ℕ → Entry
tree a =
    if a == 500
    then directory root_directory
    else if a == 600
    then directory inner_directory
    else file note

-- strcmp on names, as a test.
abbrev pub same_name : List ℕ → List ℕ → Bool
same_name (a ∷ x) (b ∷ y) = a == b && same_name x y
same_name (a ∷ x) [] = false
same_name [] (b ∷ y) = false
same_name [] [] = true

same_name_self : (name : List ℕ) → same_name name name ≡ true
same_name_self [] = refl
same_name_self (a ∷ x) = ground (arith, same_name_self x)

abbrev pub nodes : Nodes
nodes = record {
  vnodes = λ a. record {
    vnode_type = vdir;
    vnode_ops = directory_ops;
    vnode_vfsmountedhere = 0;
    vnode_data = 500;
    mounted_vfs = 0;
  };
  vnode_covered = λ a. 0;
  entries = tree;
  allocated = 3;
}

abbrev pub block : ℕ → ℕ
block n = 1000 + n

nodes-IsPlain : IsPlain block 10 nodes
nodes-IsPlain = record {
  unmounted = λ v. refl;
  root_ops = refl;
  root_kept = λ n h e. omega arith;
  room = λ n e. omega arith;
}

-- The path "/a/b" leads to the file at 700.
abbrev pub path : List ℕ
path = 47 ∷ 97 ∷ 47 ∷ 98 ∷ []

vfs_resolve_path-follow_example :
    entry_reached (vfs_resolve_path block 77 same_name 10 20 path nodes)
    ≡ follow same_name tree 500 (tokens path)
vfs_resolve_path-follow_example =
    vfs_resolve_path-follow block 77 same_name 10 10 20 path nodes refl nodes-IsPlain
      (inr (λ e. omega arith))

path_reaches : entry_reached (vfs_resolve_path block 77 same_name 10 20 path nodes) ≡ some 700
unfolding vfs_resolve_path resolve_tokens split_from vnode_tmpfs_lookup tmpfs_link_vnode
    tmpfs_lookup find_entry
path_reaches = refl

root-IsDirectory : IsDirectory root_directory
root-IsDirectory = record { counted = refl; sized = refl; room = omega arith }

-- The entries of the root directory, none of which has the name "c".
root-HasNo : HasNo same_name tree (99 ∷ []) root_directory
root-HasNo k f at real = ground arith

vnode_tmpfs_create_file-lookup_example :
    (made : ℕ × Nodes) × (found : ℕ × Nodes) × (vnode_tmpfs_create_file block 77 800 900 10
        (99 ∷ [])
        64
        nodes
      ≡ some made)
    × (vnode_tmpfs_lookup block 77 same_name 10 (99 ∷ []) made.1 ≡ some found)
    × StandsFor 800 vreg made
    × StandsFor 800 vreg found
vnode_tmpfs_create_file-lookup_example =
    vnode_tmpfs_create_file-lookup same_name same_name_self block 77 800 900 10 (99 ∷ []) 64
      root_directory nodes refl root-IsDirectory (omega arith) root-HasNo (λ e. omega arith) refl
      (λ e. omega arith) (λ e. omega arith) (λ e. omega arith)
