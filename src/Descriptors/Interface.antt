-- ===== src/Descriptors/Interface.antt =====
-- What the descriptors of limine-c-template-x86-64/kernel/src/vfs.c rely on: the hash table oa_hash and
-- the printing of nanoprintf.
use willow_os.Prelude.{ℕ, ◌≡◌, ◌≢◌, Bool, true, List}

-- What oa_hash promises. `text` is what the buffers hold; a key is given by its text where it is only
-- compared, and by its address where the table keeps it. A value of 0 says that `set` had no space
-- left, or that `get` found no entry. `IsKept text t` says that the texts of the keys are still those
-- under which they were set.
pub record OaHash : Type 1 where
  pub Table : Type 0
  pub length : Table → ℕ
  pub capacity : Table → ℕ
  pub buckets : Table → ℕ
  pub with_buckets : Table → ℕ → Table
  pub holds : Table → ℕ → Bool
  pub IsKept : (text : ℕ → List ℕ) → Table → Type 0
  pub get : (text : ℕ → List ℕ) → Table → (key : List ℕ) → ℕ
  pub set : (text : ℕ → List ℕ) → Table → (key value : ℕ) → ℕ × Table
  pub remove : (text : ℕ → List ℕ) → Table → (key : List ℕ) → Table
  pub rehash : (text : ℕ → List ℕ) → Table → (new_buckets new_capacity : ℕ) → ℕ × Table
  pub get-text :
      (text text' : ℕ → List ℕ) (t : Table) (key : List ℕ)
      → ((a : ℕ) → holds t a ≡ true → text a ≡ text' a)
      → get text t key ≡ get text' t key
  pub IsKept-text :
      (text text' : ℕ → List ℕ) (t : Table)
      → ((a : ℕ) → holds t a ≡ true → text a ≡ text' a)
      → IsKept text t
      → IsKept text' t
  pub get-set_self :
      (text : ℕ → List ℕ) (t : Table) (key value : ℕ)
      → IsKept text t
      → (set text t key value).0 ≢ 0
      → get text (set text t key value).1 (text key) ≡ value
  pub get-set_ne :
      (text : ℕ → List ℕ) (t : Table) (key value : ℕ) (other : List ℕ)
      → IsKept text t
      → other ≢ text key
      → get text (set text t key value).1 other ≡ get text t other
  pub get-set_full :
      (text : ℕ → List ℕ) (t : Table) (key value : ℕ) (other : List ℕ)
      → IsKept text t
      → value ≢ 0
      → (set text t key value).0 ≡ 0
      → get text (set text t key value).1 other ≡ get text t other
  pub IsKept-set :
      (text : ℕ → List ℕ) (t : Table) (key value : ℕ)
      → IsKept text t
      → IsKept text (set text t key value).1
  pub get-remove_self :
      (text : ℕ → List ℕ) (t : Table) (key : List ℕ)
      → IsKept text t
      → get text (remove text t key) key ≡ 0
  pub get-remove_ne :
      (text : ℕ → List ℕ) (t : Table) (key other : List ℕ)
      → IsKept text t
      → other ≢ key
      → get text (remove text t key) other ≡ get text t other
  pub IsKept-remove :
      (text : ℕ → List ℕ) (t : Table) (key : List ℕ)
      → IsKept text t
      → IsKept text (remove text t key)
  pub rehash-buckets :
      (text : ℕ → List ℕ) (t : Table) (new_buckets new_capacity : ℕ)
      → (rehash text t new_buckets new_capacity).0 ≢ 0
      → ((rehash text t new_buckets new_capacity).0 ≡ buckets t)
        × (buckets (rehash text t new_buckets new_capacity).1 ≡ new_buckets)

-- What `npf_snprintf(buf, 64, "%d", …)` writes for a number that is not negative.
pub record Printing : Type 0 where
  pub decimal : ℕ → List ℕ
  pub decimal_injective : (a b : ℕ) → decimal a ≡ decimal b → a ≡ b
