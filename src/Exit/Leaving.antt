-- ===== src/Exit/Leaving.antt =====
-- What `scheduler_return` leaves behind on a ring.
use willow_os.Prelude.{ℕ, ◌≡◌, List, ◌++◌}
use willow_os.Sched.{Scheduler}
use willow_os.Sched.Ring.{IsRing}
use willow_os.Exit.{Exit, resumed, calls_before, calls_after}

-- What a thread that ends leaves: how the function continues, the running thread, the ring, and the
-- calls that return what the thread held.
pub record Leaves (s : Scheduler) (hhdm_offset buckets continues : ℕ) (at : ℕ) (behind : List ℕ)
    (e : Exit) : Type 0 where
  pub continues_with : e.leave ≡ resumed continues
  pub running : e.scheduler.running_thread ≡ at
  pub ring : IsRing e.scheduler behind
  pub returned :
      e.calls
      ≡ calls_before buckets (s.threads s.running_thread)
        ++ calls_after hhdm_offset s.running_thread (s.threads s.running_thread)
