-- ===== src/Sched/Push.antt =====
-- A new thread in the ring: insert_thread and push_thread.
use mathlib.Core.Path.{subst}
use willow_os.Prelude.{
  ℕ, ◌+◌, ◌^◌, ◌<◌, ◌≡◌, ◌≢◌, refl, sym, false, List, [], ◌∷◌, arith, length, ne_zero,
}
use willow_os.Sched.{Thread, Scheduler, insert_thread, push_thread, push_new}
use willow_os.Sched.Ring.{IsRing, Links, NotIn, Distinct, Links-agree}

module _ (left new right : ℕ) (f : ℕ → Thread) where
  abbrev inserted : ℕ → Thread
  inserted = insert_thread left new right f

  pub insert-next_left : left ≢ new → (inserted left).next_thread ≡ new
  unfolding insert_thread
  insert-next_left h = ground arith

  pub insert-next_new : (inserted new).next_thread ≡ right
  unfolding insert_thread
  insert-next_new = ground arith

  pub insert-prev_right : right ≢ new → (inserted right).prev_thread ≡ new
  unfolding insert_thread
  insert-prev_right h = ground arith

  pub insert-prev_new : (inserted new).prev_thread ≡ left
  unfolding insert_thread
  insert-prev_new = ground arith

  pub insert-next_other :
      (q : ℕ) → q ≢ left → q ≢ new → (inserted q).next_thread ≡ (f q).next_thread
  unfolding insert_thread
  insert-next_other q a b = ground arith

  pub insert-prev_other :
      (q : ℕ) → q ≢ right → q ≢ new → (inserted q).prev_thread ≡ (f q).prev_thread
  unfolding insert_thread
  insert-prev_other q a b = ground arith

-- A thread put behind the running one, in front of the others.
pub Links-insert :
    (f : ℕ → Thread) (r new : ℕ) (xs : List ℕ)
    → Links f r xs r
    → Distinct (r ∷ xs)
    → NotIn new (r ∷ xs)
    → Links (insert_thread r new (f r).next_thread f) r (new ∷ xs) r
Links-insert f r new [] (n, v) d (fresh, _) = rw n (
  insert-next_left r new r f (λ h. fresh (sym h)),
  insert-prev_new r new r f,
  (insert-next_new r new r f, insert-prev_right r new r f (λ h. fresh (sym h))),
)
Links-insert f r new (x ∷ xs) (n, v, l) ((rx, rxs), (xxs, dxs)) (fresh, (fresh_x, fresh_xs)) =
    subst (λ y. Links (insert_thread r new y f) r (new ∷ x ∷ xs) r) (sym n)
      (
        insert-next_left r new x f (λ h. fresh (sym h)),
        insert-prev_new r new x f,
        (
          insert-next_new r new x f,
          insert-prev_right r new x f (λ h. fresh_x (sym h)),
          Links-agree f (insert_thread r new x f) x xs r r x new (insert-next_other r new x f)
              (insert-prev_other r new x f) (rx, rxs) xxs (fresh_x, fresh_xs) (λ h. rx (sym h))
              fresh l,
        ),
      )

-- A new thread that is not in the ring comes directly behind the running one, and the ring and the
-- number of threads stay right, the number below 2^64.
pub push_new-IsRing :
    (s : Scheduler) (behind : List ℕ) (new : ℕ)
    → IsRing s behind
    → NotIn new (s.running_thread ∷ behind)
    → length behind + 2 < 2 ^ 64
    → IsRing (push_new new s) (new ∷ behind)
unfolding push_new push_thread
push_new-IsRing s behind new ring fresh few =
    rw (ring.started, ne_zero s.num_threads (λ h. omega (arith, ring.counted)))
      (record {
        links = Links-insert s.threads s.running_thread new behind ring.links ring.distinct fresh;
        distinct = (((λ h. fresh.0 (sym h)), ring.distinct.0), (fresh.1, ring.distinct.1));
        started = refl;
        counted = omega (arith, ring.counted);
      })

-- What `push_new` keeps once scheduling has started.
pub push_new-running :
    (s : Scheduler) (new : ℕ)
    → s.first_thread ≡ false
    → s.num_threads ≢ 0
    → (push_new new s).running_thread ≡ s.running_thread
unfolding push_new push_thread
push_new-running s new started some_threads = rw (started, ne_zero s.num_threads some_threads) refl

pub push_new-pid :
    (s : Scheduler) (new q : ℕ)
    → s.first_thread ≡ false
    → s.num_threads ≢ 0
    → ((push_new new s).threads q).pid ≡ (s.threads q).pid
unfolding push_new push_thread insert_thread
push_new-pid s new q started some_threads =
    rw (started, ne_zero s.num_threads some_threads) (ground arith)
