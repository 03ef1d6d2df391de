-- ===== src/Tests/Sched.antt =====
-- Rings of three threads, and the theorems on scheduler.c at them.
use willow_os.Prelude.{ℕ, ◌≡◌, refl, false, some, none, [], ◌∷◌, ◌==◌, if◌then◌else◌, arith}
use willow_os.Sched.{Thread, Scheduler, create_thread, push_new, reschedule, switched, idle_pid}
use willow_os.Sched.Ring.{IsRing}
use willow_os.Sched.Push.{push_new-IsRing}
use willow_os.Sched.Switch.{reschedule-switches, reschedule-blocked_hangs}
use willow_os.Exit.{Exit}

-- The thread with a pid, its neighbours, and whether it is blocked.
abbrev thread : (pid next prev blocked : ℕ) → Thread
thread pid next prev blocked = record (create_thread 4096 0 pid 0) {
  next_thread = next;
  prev_thread = prev;
  blocked = blocked;
}

-- Thread 1 runs, 2 and 3 are behind it; the arguments say whether 2 and 3 are blocked.
abbrev pub ring : (second third : ℕ) → Scheduler
ring second third = record {
  threads = λ p.
      if p == 100
      then thread 1 200 300 0
      else if p == 200
      then thread 2 300 100 second
      else thread 3 100 200 third;
  running_thread = 100;
  num_threads = 3;
  first_thread = false;
}

pub ring-IsRing : (second third : ℕ) → IsRing (ring second third) (200 ∷ 300 ∷ [])
ring-IsRing second third = record {
  links = (refl, refl, (refl, refl, (refl, refl)));
  distinct = (((λ h. omega arith), ((λ h. omega arith), tt)), (((λ h. omega arith), tt), (tt, tt)));
  started = refl;
  counted = refl;
}

push_new-IsRing_example : IsRing (push_new 400 (ring 0 0)) (400 ∷ 200 ∷ 300 ∷ [])
push_new-IsRing_example =
    push_new-IsRing (ring 0 0) (200 ∷ 300 ∷ []) 400 (ring-IsRing 0 0)
      ((λ h. omega arith), ((λ h. omega arith), ((λ h. omega arith), tt))) (omega arith)

reschedule-switches_example :
    (s' : Scheduler) × (reschedule 1 7 (ring 0 0) ≡ some (switched 100 200, s'))
    × IsRing s' (300 ∷ 100 ∷ [])
unfolding create_thread
reschedule-switches_example =
    reschedule-switches (ring 0 0) 200 (300 ∷ []) 0 7 (ring-IsRing 0 0) (λ h. omega arith) refl

reschedule-blocked_hangs_example : reschedule 1000 7 (ring 1 0) ≡ none
unfolding create_thread
reschedule-blocked_hangs_example =
    reschedule-blocked_hangs (ring 1 0) 200 (300 ∷ []) 1000 7 (ring-IsRing 1 0) (λ h. omega arith)
      refl (λ h. omega arith)

abbrev idle_thread : Thread
idle_thread = create_thread 8192 0 idle_pid 0
