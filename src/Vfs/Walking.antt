-- ===== src/Vfs/Walking.antt =====
-- vfs_resolve_path of limine-c-template-x86-64/kernel/src/vfs.c against a walk over the entries of
-- tmpfs that knows nothing of nodes.
use willow_os.Prelude.{
  ℕ, ◌≤◌, ◌≡◌, ◌≢◌, ◌∙◌, refl, ◌⊎◌, inl, inr, Bool, true, false, Option, none, some, List, [], ◌∷◌,
  ◌==◌, if◌then◌else◌, ◌>>=◌, arith,
}
use willow_os.Tmpfs.{Entry, file, directory, tmpfs_lookup}
use willow_os.Vfs.{
  VnodeType, directory_ops, Nodes, type_of, tmpfs_link_vnode, link_found, lookup_in, is_mount,
  vnode_tmpfs_lookup, resolve_tokens, tokens, start_of, vfs_resolve_path,
}

-- The entry that a walk by names reaches from the entry at an address: NULL where the last name is
-- missing, none where a name is looked up in a file or in NULL.
module _ (same_name : List ℕ → List ℕ → Bool) (entries : ℕ → Entry) where
  abbrev pub inside : (name : List ℕ) → Entry → Option ℕ
  inside name (file f) = none
  inside name (directory d) = some (tmpfs_lookup same_name name entries d)

  abbrev pub follow_one : (entry : ℕ) (name : List ℕ) → Option ℕ
  follow_one entry name = if entry == 0 then none else inside name (entries entry)

  unfoldable pub follow : (entry : ℕ) (names : List (List ℕ)) → Option ℕ
  follow entry [] = some entry
  follow entry (name ∷ names) = follow_one entry name >>= λ e. follow e names

-- The entry that a node stands for.
abbrev pub entry_of : (vnode : ℕ) → Nodes → ℕ
entry_of vnode s = if vnode == 0 then 0 else (s.vnodes vnode).vnode_data

abbrev pub entry_reached : Option (ℕ × Nodes) → Option ℕ
entry_reached none = none
entry_reached (some (vnode, s)) = some (entry_of vnode s)

-- No node is covered by a mounted file system, `root` is the node of a directory whose block is not
-- handed out again, and kmalloc_byte does not fail.
pub record IsPlain (block : ℕ → ℕ) (root : ℕ) (s : Nodes) : Type 0 where
  pub unmounted : (vnode : ℕ) → (s.vnodes vnode).mounted_vfs ≡ 0
  pub root_ops : (s.vnodes root).vnode_ops ≡ directory_ops
  pub root_kept : (n : ℕ) → s.allocated ≤ n → block n ≢ root
  pub room : (n : ℕ) → block n ≢ 0

-- A node that is not NULL stands for an entry.
abbrev pub IsBacked : (vnode : ℕ) → Nodes → Type 0
IsBacked vnode s = (vnode ≡ 0) ⊎ ((s.vnodes vnode).vnode_data ≢ 0)

module _ (block : ℕ → ℕ) (vfs_tmpfs : ℕ) (same_name : List ℕ → List ℕ → Bool) (root : ℕ) where
  -- What a lookup leaves behind, next to the entry that it finds.
  record Step (s : Nodes) (found vnode : ℕ) (s' : Nodes) : Type 0 where
    plain : IsPlain block root s'
    backed : IsBacked vnode s'
    same_entries : s'.entries ≡ s.entries
    stands : entry_of vnode s' ≡ found

  tmpfs_link_vnode-Step :
      (s : Nodes) (found : ℕ) (type : VnodeType)
      → IsPlain block root s
      → found ≢ 0
      → Step s found
          (tmpfs_link_vnode block vfs_tmpfs found type s).0
          (tmpfs_link_vnode block vfs_tmpfs found type s).1
  unfolding tmpfs_link_vnode
  tmpfs_link_vnode-Step s found type p real = record {
    plain = record {
      unmounted = λ v. ground (arith, p.unmounted v, p.unmounted (block s.allocated));
      root_ops = ground (arith, p.root_ops, p.root_kept s.allocated (omega arith));
      root_kept = λ n h. p.root_kept n (omega arith);
      room = p.room;
    };
    backed = inr (ground arith);
    same_entries = refl;
    stands = ground (arith, p.room s.allocated);
  }

  link_found-Step :
      (s : Nodes) (found : ℕ)
      → IsPlain block root s
      → Step s found (link_found block vfs_tmpfs found s).0 (link_found block vfs_tmpfs found s).1
  link_found-Step s found p = split (found == 0) refl
    where
      split :
          (b : Bool)
          → (found == 0) ≡ b
          → Step s found
              (if b
                then (0, s)
                else tmpfs_link_vnode block vfs_tmpfs found (type_of (s.entries found)) s).0
              (if b
                then (0, s)
                else tmpfs_link_vnode block vfs_tmpfs found (type_of (s.entries found)) s).1
      split true e = record {
        plain = p;
        backed = inl refl;
        same_entries = refl;
        stands = ground arith;
      }
      split false e =
          tmpfs_link_vnode-Step s found (type_of (s.entries found)) p (λ z. ground arith)

  abbrev Meets : Nodes → Option (ℕ × Nodes) → Option ℕ → Type 0
  Meets s none none = Unit {0}
  Meets s none (some e) = ⊥
  Meets s (some r) none = ⊥
  Meets s (some r) (some e) = Step s e r.0 r.1

  lookup_in-Meets :
      (s : Nodes) (entry : Entry) (name : List ℕ)
      → IsPlain block root s
      → Meets s
          (lookup_in block vfs_tmpfs same_name entry name s)
          (inside same_name s.entries name entry)
  lookup_in-Meets s (file f) name p = tt
  lookup_in-Meets s (directory d) name p =
      link_found-Step s (tmpfs_lookup same_name name s.entries d) p

  is_mount_plain :
      (s : Nodes) (vnode : ℕ) (name : List ℕ)
      → IsPlain block root s
      → is_mount block vfs_tmpfs same_name (s.vnodes vnode) name s ≡ false
  is_mount_plain s vnode name p = ground (arith, p.unmounted vnode)

  vnode_tmpfs_lookup-Meets :
      (s : Nodes) (vnode : ℕ) (name : List ℕ)
      → IsPlain block root s
      → IsBacked vnode s
      → Meets s
          (vnode_tmpfs_lookup block vfs_tmpfs same_name vnode name s)
          (follow_one same_name s.entries (entry_of vnode s) name)
  unfolding vnode_tmpfs_lookup
  vnode_tmpfs_lookup-Meets s vnode name p backed = split (vnode == 0) refl
    where
      entry : Entry
      entry = s.entries (s.vnodes vnode).vnode_data

      test_data : (vnode == 0) ≡ false → ((s.vnodes vnode).vnode_data == 0) ≡ false
      test_data e = ground (arith, backed)

      split :
          (b : Bool)
          → (vnode == 0) ≡ b
          → Meets s
              (if b
                then none
                else if is_mount block vfs_tmpfs same_name (s.vnodes vnode) name s
                then some (s.vnode_covered (s.vnodes vnode).mounted_vfs, s)
                else lookup_in block vfs_tmpfs same_name entry name s)
              (follow_one same_name s.entries (if b then 0 else (s.vnodes vnode).vnode_data) name)
      split true e = tt
      split false e =
          rw (is_mount_plain s vnode name p, test_data e) (lookup_in-Meets s entry name p)

  resolve_tokens-follow :
      (toks : List (List ℕ)) (s : Nodes) (vnode : ℕ)
      → IsPlain block root s
      → IsBacked vnode s
      → entry_reached (resolve_tokens block vfs_tmpfs same_name root vnode toks s)
        ≡ follow same_name s.entries (entry_of vnode s) toks
  unfolding resolve_tokens follow
  resolve_tokens-follow [] s vnode p backed = refl
  resolve_tokens-follow (tok ∷ toks) s vnode p backed = rw p.root_ops (
      go (vnode_tmpfs_lookup block vfs_tmpfs same_name vnode tok s)
        (follow_one same_name s.entries (entry_of vnode s) tok)
        (vnode_tmpfs_lookup-Meets s vnode tok p backed)
        (λ e v s' st.
          resolve_tokens-follow toks s' v st.plain st.backed
          ∙ (λ i. follow same_name (st.same_entries i) (st.stands i) toks)))
    where
      go :
          (r : Option (ℕ × Nodes)) (f : Option ℕ)
          → Meets s r f
          → ((e v : ℕ) (s' : Nodes)
              → Step s e v s'
              → entry_reached (resolve_tokens block vfs_tmpfs same_name root v toks s')
                ≡ follow same_name s.entries e toks)
          → entry_reached (r >>= λ r. resolve_tokens block vfs_tmpfs same_name root r.0 toks r.1)
            ≡ (f >>= λ e. follow same_name s.entries e toks)
      go none none m ih = refl
      go none (some e) m ih = elim m [ ]
      go (some r) none m ih = elim m [ ]
      go (some (v, s')) (some e) m ih = ih e v s' m

  -- From a node of a directory where nothing is mounted, vfs_resolve_path reaches the node of the
  -- very entry that the walk over the tokens of the path reaches, NULL where the last name is
  -- missing, and reads through NULL or in a file exactly where that walk has no answer. `root` is
  -- the node where the path starts, tmpfs_root for an absolute path.
  pub vfs_resolve_path-follow :
      (tmpfs_root root_dir : ℕ) (path : List ℕ) (s : Nodes)
      → start_of tmpfs_root root_dir path ≡ root
      → IsPlain block root s
      → IsBacked root s
      → entry_reached (vfs_resolve_path block vfs_tmpfs same_name tmpfs_root root_dir path s)
        ≡ follow same_name s.entries (entry_of root s) (tokens path)
  unfolding vfs_resolve_path
  vfs_resolve_path-follow tmpfs_root root_dir path s start p backed =
      rw start (resolve_tokens-follow (tokens path) s root p backed)
