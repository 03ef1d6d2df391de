-- ===== src/Tests/Descriptors.antt =====
-- A table of descriptors that is a list, and the theorems on the descriptors of vfs.c at it.
use willow_os.Prelude.{
  ℕ, zero, suc, ◌+◌, ◌≡◌, ◌≢◌, ◌<◌, ◌∙◌, ap, sym, refl, true, false, Bool, ◌&&◌, some, List, [],
  ◌∷◌, ◌==◌, ltb, if◌then◌else◌, arith, inl, inr, length, replicate, Bool-cases,
}
use willow_os.Memory.{Memory}
use willow_os.Tmpfs.{tmpfs_write_to_file}
use willow_os.Tmpfs.Contents.{Blocks}
use willow_os.Vfs.{vreg, regular_ops, vfs_resolve_path}
use willow_os.Descriptors.{
  OaHash, Printing, OpenFile, OpenBlocks, Descriptors, path_to_open, vfs_fdopen, fd_pread,
  fd_pwrite,
}
use willow_os.Descriptors.Outcomes.{Outcome, vfs_fdopen-Outcome}
use willow_os.Descriptors.Contents.{fd_pwrite-fd_pread}
use willow_os.Tests.Vfs.{block, nodes, same_name, path, note}

-- Texts are compared byte by byte.
abbrev same_text : List ℕ → List ℕ → Bool
same_text (a ∷ x) (b ∷ y) = a == b && same_text x y
same_text (a ∷ x) [] = false
same_text [] (b ∷ y) = false
same_text [] [] = true

same_text_self : (x : List ℕ) → same_text x x ≡ true
same_text_self [] = refl
same_text_self (a ∷ x) = ground (arith, same_text_self x)

same_text→eq : (x y : List ℕ) → same_text x y ≡ true → x ≡ y
same_text→eq (a ∷ x) (b ∷ y) h = ground (arith, same_text→eq x y)
same_text→eq (a ∷ x) [] h = cc
same_text→eq [] (b ∷ y) h = cc
same_text→eq [] [] h = refl

-- The entries of a table: the address of the key and the value.
abbrev get_in : (ℕ → List ℕ) → List (ℕ × ℕ) → List ℕ → ℕ
get_in text [] key = 0
get_in text ((a, v) ∷ t) key = if same_text (text a) key then v else get_in text t key

abbrev set_in : (ℕ → List ℕ) → List (ℕ × ℕ) → ℕ → ℕ → List (ℕ × ℕ)
set_in text t key value = (key, value) ∷ t

abbrev remove_in : (ℕ → List ℕ) → List (ℕ × ℕ) → List ℕ → List (ℕ × ℕ)
remove_in text [] key = []
remove_in text ((a, v) ∷ t) key =
    let rest = remove_in text t key in if same_text (text a) key then rest else (a, v) ∷ rest

abbrev holds_in : List (ℕ × ℕ) → ℕ → Bool
holds_in [] a = false
holds_in ((b, v) ∷ t) a = if b == a then true else holds_in t a

record Table : Type 0 where
  entries : List (ℕ × ℕ)
  capacity : ℕ
  buckets : ℕ

abbrev set_table : (ℕ → List ℕ) → Table → ℕ → ℕ → ℕ × Table
set_table text t key value =
    if ltb (length t.entries) t.capacity
    then (value, record t { entries = set_in text t.entries key value })
    else (0, t)

get_in-text :
    (text text' : ℕ → List ℕ) (t : List (ℕ × ℕ)) (key : List ℕ)
    → ((a : ℕ) → holds_in t a ≡ true → text a ≡ text' a)
    → get_in text t key ≡ get_in text' t key
get_in-text text text' [] key same = refl
get_in-text text text' ((a, v) ∷ t) key same = rw (same a (ground arith)) (
    ap (λ (n : ℕ). if same_text (text' a) key then v else n)
      (get_in-text text text' t key (λ b h. same b (ground arith))))

get-set_table_self :
    (text : ℕ → List ℕ) (t : Table) (key value : ℕ)
    → (set_table text t key value).0 ≢ 0
    → get_in text (set_table text t key value).1.entries (text key) ≡ value
get-set_table_self text t key value space = elim (Bool-cases (ltb (length t.entries) t.capacity)) [
  | inl e ↦ rw (e, same_text_self (text key)) refl
  | inr e ↦ absurd (space (rw e refl))
]

differs : (x y : List ℕ) → y ≢ x → same_text x y ≡ false
differs x y ne = elim (Bool-cases (same_text x y)) [
  | inl e ↦ absurd (ne (sym (same_text→eq x y e)))
  | inr e ↦ e
]

get-set_table_ne :
    (text : ℕ → List ℕ) (t : Table) (key value : ℕ) (other : List ℕ)
    → other ≢ text key
    → get_in text (set_table text t key value).1.entries other ≡ get_in text t.entries other
get-set_table_ne text t key value other ne = elim (Bool-cases (ltb (length t.entries) t.capacity)) [
  | inl e ↦ rw (e, differs (text key) other ne) refl
  | inr e ↦ rw e refl
]

get-set_table_full :
    (text : ℕ → List ℕ) (t : Table) (key value : ℕ) (other : List ℕ)
    → value ≢ 0
    → (set_table text t key value).0 ≡ 0
    → get_in text (set_table text t key value).1.entries other ≡ get_in text t.entries other
get-set_table_full text t key value other real full =
    elim (Bool-cases (ltb (length t.entries) t.capacity)) [
      | inl e ↦ absurd (real (ground (arith, full)))
      | inr e ↦ rw e refl
    ]

get-remove_in_self :
    (text : ℕ → List ℕ) (t : List (ℕ × ℕ)) (key : List ℕ)
    → get_in text (remove_in text t key) key ≡ 0
get-remove_in_self text [] key = refl
get-remove_in_self text ((a, v) ∷ t) key = elim (Bool-cases (same_text (text a) key)) [
  | inl e ↦ rw e (get-remove_in_self text t key)
  | inr e ↦ rw (e, e) (get-remove_in_self text t key)
]

get-remove_in_ne :
    (text : ℕ → List ℕ) (t : List (ℕ × ℕ)) (key other : List ℕ)
    → other ≢ key
    → get_in text (remove_in text t key) other ≡ get_in text t other
get-remove_in_ne text [] key other ne = refl
get-remove_in_ne text ((a, v) ∷ t) key other ne = elim (Bool-cases (same_text (text a) key)) [
  | inl e ↦
      rw (e, differs (text a) other (λ s. ne (s ∙ same_text→eq (text a) key e)))
        (get-remove_in_ne text t key other ne)
  | inr e ↦ rw e (
      ap (λ (n : ℕ). if same_text (text a) other then v else n)
        (get-remove_in_ne text t key other ne))
]

abbrev list_table : OaHash
list_table = record {
  Table = Table;
  length = λ t. length t.entries;
  capacity = λ t. t.capacity;
  buckets = λ t. t.buckets;
  with_buckets = λ t b. record t { buckets = b };
  holds = λ t a. holds_in t.entries a;
  IsKept = λ text t. Unit;
  get = λ text t key. get_in text t.entries key;
  set = set_table;
  remove = λ text t key. record t { entries = remove_in text t.entries key };
  rehash = λ text t new_buckets new_capacity.
      (t.buckets, record { entries = t.entries; capacity = new_capacity; buckets = new_buckets });
  get-text = λ text text' t key same. get_in-text text text' t.entries key same;
  IsKept-text = λ text text' t same k. tt;
  get-set_self = λ text t key value k space. get-set_table_self text t key value space;
  get-set_ne = λ text t key value other k ne. get-set_table_ne text t key value other ne;
  get-set_full =
      λ text t key value other k real full. get-set_table_full text t key value other real full;
  IsKept-set = λ text t key value k. tt;
  get-remove_self = λ text t key k. get-remove_in_self text t.entries key;
  get-remove_ne = λ text t key other k ne. get-remove_in_ne text t.entries key other ne;
  IsKept-remove = λ text t key k. tt;
  rehash-buckets = λ text t b c success. (refl, refl);
}

-- Numbers in unary, as many strokes.
strokes_injective : (a b : ℕ) → replicate {A = ℕ} a 49 ≡ replicate b 49 → a ≡ b
strokes_injective zero zero h = refl
strokes_injective zero (suc b) h = absurd (cc)
strokes_injective (suc a) zero h = absurd (cc)
strokes_injective (suc a) (suc b) h = ap suc (strokes_injective a b (cc))

abbrev strokes : Printing
strokes = record { decimal = λ n. replicate n 49; decimal_injective = strokes_injective }

abbrev closed : OpenFile
closed = record {
  vnode = 0;
  locked = false;
  file_ops = 0;
  flags = 0;
  mode = 0;
  position = 0;
  abs_path = 0;
}

abbrev empty : Descriptors list_table strokes
empty = record {
  table = record { entries = []; capacity = 2; buckets = 40 };
  text = λ a. [];
  files = λ a. closed;
  nodes = nodes;
}

abbrev blocks : OpenBlocks
blocks = record { file_block = 300; ops_block = 310; new_buckets = 320; key_block = 330 }

vfs_fdopen-Outcome_example :
    Outcome list_table strokes 1 2 blocks empty true
      (vfs_resolve_path block 77 same_name 10 10 (path_to_open path []) nodes)
      (vfs_fdopen list_table strokes block 77 same_name true 10 path [] 1 2 blocks empty)
vfs_fdopen-Outcome_example =
    vfs_fdopen-Outcome list_table strokes 1 2 blocks empty (λ e. omega arith) (λ e. omega arith)
      refl tt block 77 same_name true 10 path []

-- The number 1 stands for the file at 300; its key stands at 50.
abbrev one_open : Descriptors list_table strokes
one_open = record {
  table = record { entries = (50, 300) ∷ []; capacity = 2; buckets = 40 };
  text = λ a. if a == 50 then 49 ∷ [] else [];
  files = λ a. record closed { vnode = 11 };
  nodes = record nodes {
    vnodes = λ a. record {
      vnode_type = vreg;
      vnode_ops = regular_ops;
      vnode_vfsmountedhere = 77;
      vnode_data = 700;
      mounted_vfs = 0;
    };
  };
}

-- A table with no space at all.
abbrev full : Descriptors list_table strokes
full = record empty { table = record { entries = []; capacity = 0; buckets = 40 } }

abbrev memory : Memory
memory a = a

file_blocks : Blocks 1000 2000 8 2 note memory
file_blocks = record {
  bounded = omega arith;
  allocated = λ h. omega arith;
  old_new = inr (omega arith);
  buffer_new = inl (omega arith);
  buffer_old = inl (omega arith);
}

fd_pwrite-fd_pread_example :
    (d1 : Descriptors list_table strokes) × (m1 : Memory) × (d2 : Descriptors list_table strokes)
    × (m2 : Memory) × (fd_pwrite list_table strokes 60 1 1000 2000 8 2 one_open memory
        ≡ some (d1, m1))
    × (fd_pread list_table strokes 61 1 3000 8 2 d1 m1 ≡ some (8, d2, m2))
    × ((i : ℕ) → i < 8 → m2 (3000 + i) ≡ memory (2000 + i))
unfolding tmpfs_write_to_file
fd_pwrite-fd_pread_example =
    fd_pwrite-fd_pread list_table strokes 60 1 300 one_open refl tt refl (λ e. omega arith) note 61
      1000 2000 8 2 3000 memory refl refl refl file_blocks (omega arith) (inr (omega arith))
