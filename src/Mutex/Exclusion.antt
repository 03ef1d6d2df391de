-- ===== src/Mutex/Exclusion.antt =====
-- What the mutex excludes.
use willow_os.Prelude.{ℕ, suc, ◌≡◌, ◌≢◌, refl, Bool, true, false, some, ◌==◌, arith}
use willow_os.Mutex.{
  compare_exchange, acquire_loop, acquire_mutex, release_mutex, outside, spinning, inside, Lock, at,
  attempt, enter, try, Steps, done, then_step,
}

-- Two attempts are enough to end the loop of `acquire_mutex`, locked or not, and the mutex is locked
-- then; `release_mutex` always leaves it unlocked.
pub acquire-release :
    (rounds : ℕ) (locked : Bool)
    → (acquire_mutex (suc (suc rounds)) locked ≡ some true) × (release_mutex locked ≡ false)
unfolding acquire_mutex acquire_loop compare_exchange release_mutex
acquire-release rounds true = (refl, refl)
acquire-release rounds false = (refl, refl)

-- While one thread is past its `acquire_mutex` and the mutex is locked, any other thread that is
-- outside comes past its own by its own steps alone, so that both are inside: the first attempt fails
-- and stores the value `true` in `old`, and the second attempt compares with that.
pub mutex-both_inside :
    (s : Lock) (holder thread : ℕ)
    → s.locked ≡ true
    → s.places holder ≡ inside
    → thread ≢ holder
    → s.places thread ≡ outside
    → (s' : Lock) × Steps s s' × (s'.places thread ≡ inside) × (s'.places holder ≡ inside)
unfolding attempt compare_exchange
mutex-both_inside s holder thread held is_in ne out = (
  attempt thread true failed,
  then_step (enter thread out)
      (then_step (try thread false entered) (then_step (try thread true retries) done)),
  rw (here, held) refl,
  rw elsewhere is_in,
)
  where
    waiting : Lock
    waiting = record s { places = at thread (spinning false) s.places }

    failed : Lock
    failed = attempt thread false waiting

    here : (thread == thread) ≡ true
    here = ground arith

    elsewhere : (holder == thread) ≡ false
    elsewhere = ground arith

    entered : waiting.places thread ≡ spinning false
    entered = rw here refl

    retries : failed.places thread ≡ spinning true
    retries = rw (here, held) refl
