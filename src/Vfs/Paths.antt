-- ===== src/Vfs/Paths.antt =====
-- How vfs_resolve_path of limine-c-template-x86-64/kernel/src/vfs.c takes a path apart.
use willow_os.Prelude.{
  ℕ, ◌≡◌, ◌≢◌, ◌∙◌, ap, refl, sym, Bool, true, false, Option, none, some, List, [], ◌∷◌, ◌++◌, ◌==◌,
  ◌>>=◌,
}
use mathlib.Core.List.{append_assoc}
use willow_os.Vfs.{
  VnodeOps, unset_ops, directory_ops, regular_ops, Nodes, vnode_tmpfs_lookup, lookup_by,
  resolve_tokens, flush, split_from, tokens, start_of, vfs_resolve_path,
}

split_from-append :
    (token p q : List ℕ) → split_from token (p ++ 47 ∷ q) ≡ split_from token p ++ tokens q
unfolding split_from
split_from-append token [] q = refl
split_from-append token (c ∷ p) q =
    split (c == 47) (split_from-append [] p q) (split_from-append (token ++ c ∷ []) p q)
  where
    split :
        (b : Bool)
        → split_from [] (p ++ 47 ∷ q) ≡ split_from [] p ++ tokens q
        → split_from (token ++ c ∷ []) (p ++ 47 ∷ q) ≡ split_from (token ++ c ∷ []) p ++ tokens q
        → elim b [
          | true ↦ flush token ++ split_from [] (p ++ 47 ∷ q)
          | false ↦ split_from (token ++ c ∷ []) (p ++ 47 ∷ q)
        ]
          ≡ elim b [
            | true ↦ flush token ++ split_from [] p
            | false ↦ split_from (token ++ c ∷ []) p
          ]
            ++ tokens q
    split true h k =
        ap (λ t. flush token ++ t) h ∙ sym (append_assoc (flush token) (split_from [] p) (tokens q))
    split false h k = k

module _ (block : ℕ → ℕ) (vfs_tmpfs : ℕ) (same_name : List ℕ → List ℕ → Bool) where
  resolve_tokens-append :
      (root ret : ℕ) (xs ys : List (List ℕ)) (s : Nodes)
      → resolve_tokens block vfs_tmpfs same_name root ret (xs ++ ys) s ≡ (
          resolve_tokens block vfs_tmpfs same_name root ret xs s >>= λ r.
          resolve_tokens block vfs_tmpfs same_name root r.0 ys r.1)
  unfolding resolve_tokens
  resolve_tokens-append root ret [] ys s = refl
  resolve_tokens-append root ret (tok ∷ xs) ys s =
      go (lookup_by block vfs_tmpfs same_name (s.vnodes root).vnode_ops ret tok s)
        (λ r s'. resolve_tokens-append root r xs ys s')
    where
      go :
          (o : Option (ℕ × Nodes))
          → ((r : ℕ) (s' : Nodes)
              → resolve_tokens block vfs_tmpfs same_name root r (xs ++ ys) s' ≡ (
                  resolve_tokens block vfs_tmpfs same_name root r xs s' >>= λ r.
                  resolve_tokens block vfs_tmpfs same_name root r.0 ys r.1))
          → (o >>= λ r. resolve_tokens block vfs_tmpfs same_name root r.0 (xs ++ ys) r.1) ≡ (
              (o >>= λ r. resolve_tokens block vfs_tmpfs same_name root r.0 xs r.1) >>= λ r.
              resolve_tokens block vfs_tmpfs same_name root r.0 ys r.1)
      go none ih = refl
      go (some (r, s')) ih = ih r s'

  -- A path that is not empty, a slash and a further path resolve in two steps: the first path, and
  -- from its node the tokens of the second, by the lookup of the node where the first path starts.
  pub vfs_resolve_path-append :
      (tmpfs_root root_dir c : ℕ) (p q : List ℕ) (s : Nodes)
      → vfs_resolve_path block vfs_tmpfs same_name tmpfs_root root_dir (c ∷ p ++ 47 ∷ q) s ≡ (
          vfs_resolve_path block vfs_tmpfs same_name tmpfs_root root_dir (c ∷ p) s >>= λ r.
          resolve_tokens block vfs_tmpfs same_name
            (start_of tmpfs_root root_dir (c ∷ p))
            r.0
            (tokens q)
            r.1)
  unfolding vfs_resolve_path
  vfs_resolve_path-append tmpfs_root root_dir c p q s =
      let start = start_of tmpfs_root root_dir (c ∷ p) in
      ap (λ toks. resolve_tokens block vfs_tmpfs same_name start start toks s)
        (split_from-append [] (c ∷ p) q)
      ∙ resolve_tokens-append start start (tokens (c ∷ p)) (tokens q) s

  lookup_by-null :
      (ops : VnodeOps) (tok : List ℕ) (s : Nodes)
      → lookup_by block vfs_tmpfs same_name ops 0 tok s ≡ none
  unfolding vnode_tmpfs_lookup
  lookup_by-null unset_ops tok s = refl
  lookup_by-null directory_ops tok s = refl
  lookup_by-null regular_ops tok s = refl

  resolve_tokens-null :
      (root : ℕ) (toks : List (List ℕ)) (s : Nodes)
      → toks ≢ []
      → resolve_tokens block vfs_tmpfs same_name root 0 toks s ≡ none
  unfolding resolve_tokens
  resolve_tokens-null root [] s h = elim (h refl) [ ]
  resolve_tokens-null root (tok ∷ toks) s h =
      ap (λ o. o >>= λ r. resolve_tokens block vfs_tmpfs same_name root r.0 toks r.1)
        (lookup_by-null (s.vnodes root).vnode_ops tok s)

  -- Where a path resolves to NULL, as it does if its last name is missing, every longer path that has
  -- a token behind that name makes vfs_resolve_path read through NULL.
  pub vfs_resolve_path_faults :
      (tmpfs_root root_dir c : ℕ) (p q : List ℕ) (s s' : Nodes)
      → vfs_resolve_path block vfs_tmpfs same_name tmpfs_root root_dir (c ∷ p) s ≡ some (0, s')
      → tokens q ≢ []
      → vfs_resolve_path block vfs_tmpfs same_name tmpfs_root root_dir (c ∷ p ++ 47 ∷ q) s ≡ none
  vfs_resolve_path_faults tmpfs_root root_dir c p q s s' missing more =
      let start = start_of tmpfs_root root_dir (c ∷ p) in
      vfs_resolve_path-append tmpfs_root root_dir c p q s
      ∙ ap (λ o. o >>= λ r. resolve_tokens block vfs_tmpfs same_name start r.0 (tokens q) r.1)
          missing
      ∙ resolve_tokens-null start (tokens q) s' more
