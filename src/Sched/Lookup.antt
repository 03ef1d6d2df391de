-- ===== src/Sched/Lookup.antt =====
-- Threads found by their pid: get_thread_by_pid and block_thread.
use willow_os.Prelude.{
  ℕ, suc, ◌+◌, ◌≡◌, refl, Bool, true, false, Option, none, some, List, [], ◌∷◌, ◌==◌, if◌then◌else◌,
  arith, length, ap,
}
use willow_os.Sched.{Thread, Scheduler, find_pid, get_thread_by_pid, block_thread, block_found}
use willow_os.Sched.Ring.{IsRing, Links}

-- The first thread of a list with the pid.
abbrev pub first_with : (pid : ℕ) (threads : ℕ → Thread) → List ℕ → Option ℕ
first_with pid threads [] = none
first_with pid threads (t ∷ ts) =
    let later = first_with pid threads ts in if (threads t).pid == pid then some t else later

-- A walk of a full ring and one thread more reads the first thread again, which did not match.
find_pid-first :
    (f : ℕ → Thread) (pid p : ℕ) (xs : List ℕ) (r : ℕ)
    → Links f p xs r
    → ((f r).pid == pid) ≡ false
    → find_pid (suc (suc (length xs))) pid p f ≡ first_with pid f (p ∷ xs)
unfolding find_pid
find_pid-first f pid p [] r (n, v) other = rw (n, other) refl
find_pid-first f pid p (x ∷ xs) r (n, v, l) other =
    rw n (ap (λ o. if (f p).pid == pid then some p else o) (find_pid-first f pid x xs r l other))

find_pid-here :
    (f : ℕ → Thread) (pid p k : ℕ) → ((f p).pid == pid) ≡ true → find_pid (suc k) pid p f ≡ some p
unfolding find_pid
find_pid-here f pid p k h = rw h refl

-- On a ring, the thread that `get_thread_by_pid` returns is the first one with the pid, from the
-- running thread on, and it returns NULL only if no thread of the ring has it.
pub get_thread_by_pid-first :
    (s : Scheduler) (behind : List ℕ) (pid : ℕ)
    → IsRing s behind
    → get_thread_by_pid pid s ≡ first_with pid s.threads (s.running_thread ∷ behind)
unfolding get_thread_by_pid
get_thread_by_pid-first s behind pid ring = split ((s.threads s.running_thread).pid == pid) refl
  where
    rounds : s.num_threads + 1 ≡ suc (suc (length behind))
    rounds = omega (arith, ring.counted)

    split :
        (b : Bool)
        → ((s.threads s.running_thread).pid == pid) ≡ b
        → find_pid (s.num_threads + 1) pid s.running_thread s.threads
          ≡ first_with pid s.threads (s.running_thread ∷ behind)
    split true h =
        rw (rounds, find_pid-here s.threads pid s.running_thread (suc (length behind)) h, h) refl
    split false h =
        rw rounds
          (find_pid-first s.threads pid s.running_thread behind s.running_thread ring.links h)

-- `block_thread` on a ring: the first thread with the pid becomes blocked, except that a thread that
-- is already blocked, and a pid that no thread has, give NULL and change nothing.
pub block_thread-first :
    (s : Scheduler) (behind : List ℕ) (pid : ℕ)
    → IsRing s behind
    → block_thread pid s ≡ block_found s (first_with pid s.threads (s.running_thread ∷ behind))
unfolding block_thread get_thread_by_pid
block_thread-first s behind pid ring =
    ap (block_found s) (get_thread_by_pid-first s behind pid ring)
