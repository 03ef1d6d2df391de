-- ===== src/Mutex.antt =====
-- The spin lock of limine-c-template-x86-64/kernel/src/mutex.c: acquire_mutex and release_mutex, and
-- the interleavings of threads that use one mutex.
use willow_os.Prelude.{
  ℕ, zero, suc, Bool, true, false, Option, none, some, if◌then◌else◌, ◌==◌, ◌≡◌,
}
pub mod Exclusion

abbrev pub same : Bool → Bool → Bool
same true b = b
same false true = false
same false false = true

-- `__atomic_compare_exchange(&locked, &old, &new, …)`: whether it succeeded, then `old` and `locked`.
-- A failure stores the value it has read in `old`.
unfoldable pub compare_exchange : (locked old new : Bool) → Bool × Bool × Bool
compare_exchange locked old new =
    if same locked old then (true, old, new) else (false, locked, locked)

-- The loop of `acquire_mutex` while no other thread runs: `locked` at its end. `none` is a loop that
-- is still running after the rounds.
unfoldable pub acquire_loop : (rounds : ℕ) (old locked : Bool) → Option Bool
acquire_loop zero old locked = none
acquire_loop (suc k) old locked =
    let (success, old', locked') = compare_exchange locked old true in
    let later = acquire_loop k old' locked' in if success then some locked' else later

unfoldable pub acquire_mutex : (rounds : ℕ) (locked : Bool) → Option Bool
acquire_mutex rounds locked = acquire_loop rounds false locked

unfoldable pub release_mutex : (locked : Bool) → Bool
release_mutex locked = let (success, old, locked') = compare_exchange locked true false in locked'

-- Where a thread stands: outside, in the loop with its variable `old`, or past the loop.
pub data Place : Type 0 where
  outside : Place
  spinning : (old : Bool) → Place
  inside : Place

pub record Lock : Type 0 where
  pub locked : Bool
  pub places : ℕ → Place

abbrev pub at : (thread : ℕ) → Place → (ℕ → Place) → ℕ → Place
at thread p places t = if t == thread then p else places t

-- A thread in the loop after one attempt.
unfoldable pub attempt : (thread : ℕ) (old : Bool) → Lock → Lock
unfolding compare_exchange
attempt thread old s =
    let (success, old', locked') = compare_exchange s.locked old true in
    record {
      locked = locked';
      places = at thread (if success then inside else spinning old') s.places;
    }

-- One step of one thread.
pub data Step : Lock → Lock → Type 0 where
  enter :
      {s : Lock} (thread : ℕ)
      → s.places thread ≡ outside
      → Step s (record s { places = at thread (spinning false) s.places })
  try :
      {s : Lock} (thread : ℕ) (old : Bool)
      → s.places thread ≡ spinning old
      → Step s (attempt thread old s)
  leave :
      {s : Lock} (thread : ℕ)
      → s.places thread ≡ inside
      → Step s (record { locked = release_mutex s.locked; places = at thread outside s.places })

pub data Steps : Lock → Lock → Type 0 where
  done : {s : Lock} → Steps s s
  then_step : {s t u : Lock} → Step s t → Steps t u → Steps s u
