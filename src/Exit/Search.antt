-- ===== src/Exit/Search.antt =====
-- The search of `scheduler_return` for a thread to continue with, and the ring without the thread that
-- ends.
use willow_os.Prelude.{
  ℕ, zero, suc, ◌+◌, ◌^◌, ◌<◌, ◌≡◌, ◌≢◌, refl, ap, ◌∙◌, Bool, true, false, Option, none, some, List,
  [], ◌∷◌, ◌==◌, if◌then◌else◌, arith, length,
}
use willow_os.Sched.{Thread, Scheduler, put}
use willow_os.Sched.Ring.{IsRing, Links, Links-agree, NotIn}
use willow_os.Sched.Discard.{discard_thread-Links}
use willow_os.Exit.{
  Exit, without_thread, find_ready, switch_to_idle, switch_to_next, after_search, scheduler_return,
}

-- The first thread of a list that is not blocked.
abbrev pub first_ready : (threads : ℕ → Thread) → List ℕ → Option ℕ
first_ready threads [] = none
first_ready threads (t ∷ ts) =
    let later = first_ready threads ts in if (threads t).blocked == 1 then later else some t

-- None of the threads has the pid.
abbrev pub NoPid : (pid : ℕ) (threads : ℕ → Thread) → List ℕ → Type 0
NoPid pid threads [] = Unit {0}
NoPid pid threads (t ∷ ts) = ((threads t).pid ≢ pid) × NoPid pid threads ts

-- With a round for each thread, the search ends, at the first thread that is not blocked.
find_ready-first :
    (rounds : ℕ) (f : ℕ → Thread) (x : ℕ) (xs : List ℕ) (r : ℕ)
    → length xs < rounds
    → Links f x xs r
    → NoPid (f r).pid f xs
    → find_ready rounds (f r).pid x f ≡ some (first_ready f (x ∷ xs))
unfolding find_ready
find_ready-first zero f x xs r few l other = absurd (omega arith)
find_ready-first (suc k) f x [] r few (n, v) other = split ((f x).blocked == 1)
  where
    back : ((f (f x).next_thread).pid == (f r).pid) ≡ true
    back = rw n (ground arith)

    split :
        (b : Bool)
        → (if b
            then (if (f (f x).next_thread).pid == (f r).pid
                then some none
                else find_ready k (f r).pid (f x).next_thread f)
            else some (some x))
          ≡ some (if b then none else some x)
    split true = rw back refl
    split false = refl
find_ready-first (suc k) f x (y ∷ ys) r few (n, v, l) (other, others) =
    split ((f x).blocked == 1) (find_ready-first k f y ys r (omega arith) l others)
  where
    ahead : ((f y).pid == (f r).pid) ≡ false
    ahead = ground arith

    split :
        (b : Bool)
        → find_ready k (f r).pid y f ≡ some (first_ready f (y ∷ ys))
        → (if b
            then (if (f (f x).next_thread).pid == (f r).pid
                then some none
                else find_ready k (f r).pid (f x).next_thread f)
            else some (some x))
          ≡ some (if b then first_ready f (y ∷ ys) else some x)
    split true ih = rw (n, ahead) ih
    split false ih = refl

-- The ring without the thread that ends.
pub without_thread-IsRing :
    (s : Scheduler) (x : ℕ) (xs : List ℕ)
    → IsRing s (x ∷ xs)
    → length xs + 2 < 2 ^ 64
    → IsRing (without_thread s.running_thread x s) xs
unfolding without_thread
without_thread-IsRing s x xs ring few = record {
  links = discard_thread-Links s.threads s.running_thread x xs ring.links ring.distinct;
  distinct = ring.distinct.1;
  started = ring.started;
  counted = omega (arith, ring.counted);
}

-- A thread outside the ring may change in any way.
pub put-outside :
    (s : Scheduler) (behind : List ℕ) (at : ℕ) (t : Thread)
    → NotIn at (s.running_thread ∷ behind)
    → IsRing s behind
    → IsRing (record s { threads = put at t s.threads }) behind
put-outside s behind at t outside ring = record {
  links =
      Links-agree s.threads (put at t s.threads) s.running_thread behind s.running_thread at at at
        (λ q h k. ground arith) (λ q h k. ground arith) outside outside.1 outside outside.0
        outside.0 ring.links;
  distinct = ring.distinct;
  started = ring.started;
  counted = ring.counted;
}

module _ (rounds hhdm_offset buckets idle : ℕ) (idle_thread : Thread) (s : Scheduler) where
  pub search :
      (x : ℕ) (xs : List ℕ)
      → IsRing s (x ∷ xs)
      → NoPid (s.threads s.running_thread).pid s.threads (x ∷ xs)
      → length xs < rounds
      → scheduler_return rounds hhdm_offset buckets idle idle_thread s
        ≡ after_search
            (switch_to_idle hhdm_offset buckets s.running_thread idle idle_thread s)
            (λ next. switch_to_next hhdm_offset buckets s.running_thread next s)
            (some (first_ready s.threads (x ∷ xs)))
  unfolding scheduler_return
  search x xs ring other few =
      ap step ring.links.0
      ∙ rw (ahead, find_ready-first rounds s.threads x xs s.running_thread few ring.links.2 other.1)
          refl
    where
      step : ℕ → Option Exit
      step next_thread =
          if (s.threads next_thread).pid == (s.threads s.running_thread).pid
          then some (switch_to_idle hhdm_offset buckets s.running_thread idle idle_thread s)
          else after_search (switch_to_idle hhdm_offset buckets s.running_thread idle idle_thread s)
              (λ next. switch_to_next hhdm_offset buckets s.running_thread next s)
              (find_ready rounds (s.threads s.running_thread).pid next_thread s.threads)

      ahead : ((s.threads x).pid == (s.threads s.running_thread).pid) ≡ false
      ahead = let different = other.0 in ground arith
