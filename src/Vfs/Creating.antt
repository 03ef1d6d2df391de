-- ===== src/Vfs/Creating.antt =====
-- A file made through a node of limine-c-template-x86-64/kernel/src/tmpfs.c and looked up again.
use willow_os.Prelude.{
  ℕ, ◌≡◌, ◌≢◌, ◌≤◌, ◌∙◌, ap, refl, inl, inr, Bool, true, false, some, List, ◌==◌, leb, arith,
  length, get_elem?,
}
use willow_os.Tmpfs.{
  File, Directory, Entry, file, directory, entry_name, new_header, add_entry, tmpfs_create_file,
  tmpfs_lookup,
}
use willow_os.Tmpfs.Adding.{add_entry-back, add_entry-header}
use willow_os.Tmpfs.Entries.{IsDirectory, Adds, add_entry-Adds}
use willow_os.Tmpfs.Lookup.{Answers, tmpfs_lookup-Answers}
use willow_os.Vfs.{
  VnodeType, vreg, Vnode, Nodes, type_of, put_entry, tmpfs_link_vnode, is_mount,
  vnode_tmpfs_create_file, vnode_tmpfs_lookup,
}

-- No entry of the directory has the name.
abbrev pub HasNo :
    (same_name : List ℕ → List ℕ → Bool) (entries : ℕ → Entry) (name : List ℕ) → Directory → Type 0
HasNo same_name entries name d =
    (k f : ℕ)
    → get_elem? d.files k ≡ some f
    → f ≢ 0
    → same_name (entry_name (entries f)) name ≡ false

-- What a node stands for, and its type.
pub record StandsFor (entry : ℕ) (type : VnodeType) (r : ℕ × Nodes) : Type 0 where
  pub stands : (r.1.vnodes r.0).vnode_data ≡ entry
  pub typed : (r.1.vnodes r.0).vnode_type ≡ type

module _ (same_name : List ℕ → List ℕ → Bool)
    (reflexive : (name : List ℕ) → same_name name name ≡ true) where
  abbrev created : (new data_address : ℕ) (name : List ℕ) (size : ℕ) → File
  created new data_address name size = record {
    header = new_header name;
    size = size;
    data_address = data_address;
    open_count = 0;
  }

  abbrev entries_after :
      (new vnode_data : ℕ) (f : File) (d' : Directory) (entries : ℕ → Entry) → ℕ → Entry
  entries_after new vnode_data f d' entries =
      put_entry (put_entry entries vnode_data (directory d')) new (file f)

  entry_name-after :
      (new vnode_data x : ℕ) (f : File) (d : Directory) (entries : ℕ → Entry)
      → entries vnode_data ≡ directory d
      → x ≢ new
      → entry_name (entries_after new vnode_data f (add_entry new d) entries x)
        ≡ entry_name (entries x)
  entry_name-after new vnode_data x f d entries at ne =
      ground (arith, add_entry-header new d, ap entry_name at)

  tmpfs_lookup-created :
      (new vnode_data : ℕ) (f : File) (d : Directory) (entries : ℕ → Entry)
      → IsDirectory d
      → new ≢ 0
      → entries vnode_data ≡ directory d
      → Adds new d (add_entry new d)
      → HasNo same_name entries f.header.name d
      → tmpfs_lookup same_name f.header.name
          (entries_after new vnode_data f (add_entry new d) entries)
          (add_entry new d)
        ≡ new
  tmpfs_lookup-created new vnode_data f d entries ok real at adds fresh =
      decide (tmpfs_lookup same_name name entries' d')
        (tmpfs_lookup-Answers same_name name entries' d')
    where
      name : List ℕ
      name = f.header.name

      d' : Directory
      d' = add_entry new d

      entries' : ℕ → Entry
      entries' = entries_after new vnode_data f d' entries

      named_new : same_name (entry_name (entries' new)) name ≡ true
      named_new = ground (arith, reflexive name)

      other :
          (k a : ℕ)
          → a ≢ new
          → get_elem? d'.files k ≡ some a
          → a ≢ 0
          → same_name (entry_name (entries' a)) name ≡ false
      other k a ne h real = elim (add_entry-back new k a d real h) [
        | inl e ↦ absurd (ne e)
        | inr old ↦
            ap (λ n. same_name n name) (entry_name-after new vnode_data a f d entries at ne)
            ∙ fresh k a old real
      ]

      decide : (answer : ℕ) → Answers same_name name entries' d'.files answer → answer ≡ new
      decide answer (inl (real', (k, h), t)) = split (answer == new) refl
        where
          split : (b : Bool) → (answer == new) ≡ b → answer ≡ new
          split true e = ground arith
          split false e = absurd (ground (arith, t, other k answer (λ z. ground arith) h real'))
      decide answer (inr (zero', none_named)) =
          absurd (ground (arith, named_new, none_named adds.slot new adds.holds real))

  module _ (block : ℕ → ℕ) (vfs_tmpfs : ℕ) where
    abbrev with_file :
        (new data_address vnode : ℕ) (name : List ℕ) (size : ℕ) → Directory → Nodes → Nodes
    with_file new data_address vnode name size d s = record s {
      entries =
          entries_after new (s.vnodes vnode).vnode_data (created new data_address name size)
            (add_entry new d) s.entries;
    }

    vnode_tmpfs_create_file_lem :
        (new data_address vnode : ℕ) (name : List ℕ) (size : ℕ) (d : Directory) (s : Nodes)
        → s.entries (s.vnodes vnode).vnode_data ≡ directory d
        → length name ≤ 127
        → vnode_tmpfs_create_file block vfs_tmpfs new data_address vnode name size s
          ≡ some (
              tmpfs_link_vnode block vfs_tmpfs new vreg
                (with_file new data_address vnode name size d s))
    unfolding vnode_tmpfs_create_file tmpfs_create_file
    vnode_tmpfs_create_file_lem new data_address vnode name size d s at short = rw (at, fits) refl
      where
        fits : leb (length name) 127 ≡ true
        fits = ground arith

    -- A lookup in a node where nothing is mounted goes to the directory.
    vnode_tmpfs_lookup_plain :
        (vnode found : ℕ) (name : List ℕ) (d : Directory) (s : Nodes)
        → vnode ≢ 0
        → (s.vnodes vnode).mounted_vfs ≡ 0
        → s.entries (s.vnodes vnode).vnode_data ≡ directory d
        → tmpfs_lookup same_name name s.entries d ≡ found
        → found ≢ 0
        → vnode_tmpfs_lookup block vfs_tmpfs same_name vnode name s
          ≡ some (tmpfs_link_vnode block vfs_tmpfs found (type_of (s.entries found)) s)
    unfolding vnode_tmpfs_lookup
    vnode_tmpfs_lookup_plain vnode found name d s real plain at is real' =
        rw (test, covered, at, is, test') refl
      where
        test : (vnode == 0) ≡ false
        test = ground arith

        covered : is_mount block vfs_tmpfs same_name (s.vnodes vnode) name s ≡ false
        covered = ground arith

        test' : (found == 0) ≡ false
        test' = ground arith

    tmpfs_link_vnode-StandsFor :
        (entry : ℕ) (type : VnodeType) (s : Nodes)
        → StandsFor entry type (tmpfs_link_vnode block vfs_tmpfs entry type s)
    unfolding tmpfs_link_vnode
    tmpfs_link_vnode-StandsFor entry type s = record { stands = ground arith; typed = ground arith }

    tmpfs_link_vnode-keeps :
        (entry vnode : ℕ) (type : VnodeType) (s : Nodes)
        → block s.allocated ≢ vnode
        → (tmpfs_link_vnode block vfs_tmpfs entry type s).1.vnodes vnode ≡ s.vnodes vnode
    unfolding tmpfs_link_vnode
    tmpfs_link_vnode-keeps entry vnode type s ne = ground arith

    tmpfs_link_vnode-entries :
        (entry : ℕ) (type : VnodeType) (s : Nodes)
        → (tmpfs_link_vnode block vfs_tmpfs entry type s).1.entries ≡ s.entries
    unfolding tmpfs_link_vnode
    tmpfs_link_vnode-entries entry type s = refl

    -- A file that vnode_tmpfs_create_file makes in the directory of a node, under a name of at most
    -- 127 bytes that no entry of it has, is what vnode_tmpfs_lookup then finds under the name: both
    -- return the node of a regular file that stands for the new entry. The directory's counters
    -- agree, nothing is mounted on the node, and kmalloc_byte hands out neither NULL, nor the
    -- directory, nor the node again.
    pub vnode_tmpfs_create_file-lookup :
        (new data_address vnode : ℕ) (name : List ℕ) (size : ℕ) (d : Directory) (s : Nodes)
        → s.entries (s.vnodes vnode).vnode_data ≡ directory d
        → IsDirectory d
        → length name ≤ 127
        → HasNo same_name s.entries name d
        → vnode ≢ 0
        → (s.vnodes vnode).mounted_vfs ≡ 0
        → new ≢ 0
        → new ≢ (s.vnodes vnode).vnode_data
        → block s.allocated ≢ vnode
        → (made : ℕ × Nodes) × (found : ℕ × Nodes) × (vnode_tmpfs_create_file block vfs_tmpfs new
              data_address vnode name size s
            ≡ some made)
          × (vnode_tmpfs_lookup block vfs_tmpfs same_name vnode name made.1 ≡ some found)
          × StandsFor new vreg made
          × StandsFor new vreg found
    vnode_tmpfs_create_file-lookup new data_address vnode name size d s at ok short fresh real plain
          new_real ne kept =
        (
          made,
          tmpfs_link_vnode block vfs_tmpfs new (type_of (made.1.entries new)) made.1,
          vnode_tmpfs_create_file_lem new data_address vnode name size d s at short,
          vnode_tmpfs_lookup_plain vnode new name (add_entry new d) made.1 real
              (ap (λ (v : Vnode). v.mounted_vfs) same ∙ plain)
              (ap (λ (v : Vnode). made.1.entries v.vnode_data) same ∙ there)
              (ap (λ e. tmpfs_lookup same_name name e (add_entry new d)) entries_same
                ∙ tmpfs_lookup-created new (s.vnodes vnode).vnode_data f d s.entries ok new_real at
                    (add_entry-Adds new d ok new_real) fresh)
              new_real,
          tmpfs_link_vnode-StandsFor new vreg s1,
          rw typed (tmpfs_link_vnode-StandsFor new vreg made.1),
        )
      where
        f : File
        f = created new data_address name size

        s1 : Nodes
        s1 = with_file new data_address vnode name size d s

        made : ℕ × Nodes
        made = tmpfs_link_vnode block vfs_tmpfs new vreg s1

        same : made.1.vnodes vnode ≡ s.vnodes vnode
        same = tmpfs_link_vnode-keeps new vnode vreg s1 kept

        entries_same : made.1.entries ≡ s1.entries
        entries_same = tmpfs_link_vnode-entries new vreg s1

        there : made.1.entries (s.vnodes vnode).vnode_data ≡ directory (add_entry new d)
        there = rw entries_same (ground arith)

        typed : type_of (made.1.entries new) ≡ vreg
        typed = rw entries_same (ground arith)
