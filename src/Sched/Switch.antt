-- ===== src/Sched/Switch.antt =====
-- What `reschedule` does on a ring.
use willow_os.Prelude.{
  ℕ, zero, suc, ◌≡◌, ◌≢◌, refl, true, false, Option, none, some, List, [], ◌∷◌, ◌++◌, ◌==◌,
  if◌then◌else◌, arith, ◌∙◌, ap,
}
use willow_os.Sched.{
  Scheduler, put, wait_rounds, reschedule, after_wait, switch, Ending, returned, switched, idle_pid,
}
use willow_os.Sched.Ring.{IsRing, turn-IsRing, put-IsRing}

-- On a ring of two threads or more, where the thread behind the running one has another pid and is
-- not blocked, `reschedule` stores the stack pointer in the running thread, continues with that next
-- thread, and the ring is the same one read from that thread on.
pub reschedule-switches :
    (s : Scheduler) (x : ℕ) (xs : List ℕ) (rounds now : ℕ)
    → IsRing s (x ∷ xs)
    → (s.threads x).pid ≢ (s.threads s.running_thread).pid
    → (s.threads x).blocked ≡ 0
    → (s' : Scheduler) × (reschedule (suc rounds) now s ≡ some (switched s.running_thread x, s'))
      × IsRing s' (xs ++ s.running_thread ∷ [])
unfolding reschedule wait_rounds
reschedule-switches s x xs rounds now ring other ready = (
  after,
  ap step ring.links.0 ∙ rw (named, waiting) (ap some switches),
  put-IsRing (record s { running_thread = x }) (xs ++ s.running_thread ∷ []) s.running_thread
      (record (s.threads s.running_thread) { last_run_time = now }) refl refl
      (turn-IsRing s x xs ring),
)
  where
    step : ℕ → Option (Ending × Scheduler)
    step y =
        if (s.threads y).pid == (s.threads (s.threads y).prev_thread).pid
        then some (returned, record s { running_thread = y })
        else after_wait now s.running_thread y
            (wait_rounds (suc rounds) y (record s { running_thread = y }))

    after : Scheduler
    after = record s {
      threads =
          put s.running_thread (record (s.threads s.running_thread) { last_run_time = now })
            s.threads;
      running_thread = x;
    }

    named : ((s.threads x).pid == (s.threads (s.threads x).prev_thread).pid) ≡ false
    named = rw ring.links.1 (ground arith)

    waiting : ((s.threads x).blocked == 1) ≡ false
    waiting = ground arith

    runs : ((s.threads x).blocked == 0) ≡ true
    runs = ground arith

    apart : s.running_thread ≢ x
    apart = ring.distinct.0.0

    kept : (x == s.running_thread) ≡ false
    kept = ground arith

    switches :
        switch now s.running_thread x (record s { running_thread = x })
        ≡ (switched s.running_thread x, after)
    switches = rw (runs, named, kept) (ap (λ p. (switched p x, after)) ring.links.1)

-- The loop that waits while the next thread is blocked reads the same thread in every round.
wait_rounds-spins :
    (rounds next_thread : ℕ) (s : Scheduler)
    → (s.threads next_thread).blocked ≡ 1
    → (s.threads next_thread).pid ≢ idle_pid
    → wait_rounds rounds next_thread s ≡ none
unfolding wait_rounds
wait_rounds-spins zero next_thread s stuck named = refl
wait_rounds-spins (suc k) next_thread s stuck named =
    rw (blocked, not_idle)
      (wait_rounds-spins k next_thread
        (record s { running_thread = (s.threads s.running_thread).next_thread }) stuck named)
  where
    blocked : ((s.threads next_thread).blocked == 1) ≡ true
    blocked = ground arith

    not_idle : ((s.threads next_thread).pid == idle_pid) ≡ false
    not_idle = ground arith

-- A blocked thread behind the running one, of another pid than the running thread and the idle
-- thread, keeps `reschedule` in its loop whatever the number of rounds: it never returns.
pub reschedule-blocked_hangs :
    (s : Scheduler) (x : ℕ) (xs : List ℕ) (rounds now : ℕ)
    → IsRing s (x ∷ xs)
    → (s.threads x).pid ≢ (s.threads s.running_thread).pid
    → (s.threads x).blocked ≡ 1
    → (s.threads x).pid ≢ idle_pid
    → reschedule rounds now s ≡ none
unfolding reschedule
reschedule-blocked_hangs s x xs rounds now ring other stuck not_idle =
    rw
      (
        ring.links.0,
        ring.links.1,
        named,
        wait_rounds-spins rounds x (record s { running_thread = x }) stuck not_idle,
      )
      refl
  where
    named : ((s.threads x).pid == (s.threads s.running_thread).pid) ≡ false
    named = ground arith
