-- ===== src/Sched/Ring.antt =====
-- The running thread and the threads behind it form a ring, which a switch and the other members of
-- the threads leave as it is.
use willow_os.Prelude.{
  ℕ, suc, ◌≡◌, ◌≢◌, sym, false, List, [], ◌∷◌, ◌++◌, arith, length, length-append, ◌∙◌,
}
use willow_os.Sched.{Thread, Scheduler, put}

-- From the thread `p`, `next_thread` leads through `xs` to `r`, and `prev_thread` leads back.
abbrev pub Links : (threads : ℕ → Thread) (p : ℕ) (xs : List ℕ) (r : ℕ) → Type 0
Links threads p [] r = ((threads p).next_thread ≡ r) × ((threads r).prev_thread ≡ p)
Links threads p (x ∷ xs) r =
    ((threads p).next_thread ≡ x) × ((threads x).prev_thread ≡ p) × Links threads x xs r

abbrev pub NotIn : ℕ → List ℕ → Type 0
NotIn p [] = Unit {0}
NotIn p (x ∷ xs) = (p ≢ x) × NotIn p xs

abbrev pub Distinct : List ℕ → Type 0
Distinct [] = Unit {0}
Distinct (x ∷ xs) = NotIn x xs × Distinct xs

-- The ring: the threads behind the running one, in order, and their number.
pub record IsRing (s : Scheduler) (behind : List ℕ) : Type 0 where
  pub links : Links s.threads s.running_thread behind s.running_thread
  pub distinct : Distinct (s.running_thread ∷ behind)
  pub started : s.first_thread ≡ false
  pub counted : s.num_threads ≡ suc (length behind)

-- Links depend only on the two members along the way.
pub Links-agree :
    (f g : ℕ → Thread) (p : ℕ) (xs : List ℕ) (r a b c : ℕ)
    → ((q : ℕ) → q ≢ a → q ≢ c → (g q).next_thread ≡ (f q).next_thread)
    → ((q : ℕ) → q ≢ b → q ≢ c → (g q).prev_thread ≡ (f q).prev_thread)
    → NotIn a (p ∷ xs)
    → NotIn b xs
    → NotIn c (p ∷ xs)
    → b ≢ r
    → c ≢ r
    → Links f p xs r
    → Links g p xs r
Links-agree f g p [] r a b c nexts prevs (pa, na) nb (pc, nc) br cr (n, v) = (
  nexts p (λ h. pa (sym h)) (λ h. pc (sym h)) ∙ n,
  prevs r (λ h. br (sym h)) (λ h. cr (sym h)) ∙ v,
)
Links-agree f g p (x ∷ xs) r a b c nexts prevs (pa, na) (xb, nb) (pc, nc) br cr (n, v, l) = (
  nexts p (λ h. pa (sym h)) (λ h. pc (sym h)) ∙ n,
  prevs x (λ h. xb (sym h)) (λ h. nc.0 (sym h)) ∙ v,
  Links-agree f g x xs r a b c nexts prevs na nb nc br cr l,
)

-- The ring read from its second thread on.
pub Links-turn :
    (f : ℕ → Thread) (p : ℕ) (xs : List ℕ) (r y : ℕ)
    → Links f p xs r
    → (f r).next_thread ≡ y
    → (f y).prev_thread ≡ r
    → Links f p (xs ++ r ∷ []) y
Links-turn f p [] r y (n, v) next prev = (n, v, (next, prev))
Links-turn f p (x ∷ xs) r y (n, v, l) next prev = (n, v, Links-turn f x xs r y l next prev)

NotIn-append : (q : ℕ) (xs : List ℕ) (r : ℕ) → NotIn q xs → q ≢ r → NotIn q (xs ++ r ∷ [])
NotIn-append q [] r h ne = (ne, tt)
NotIn-append q (x ∷ xs) r h ne = (h.0, NotIn-append q xs r h.1 ne)

Distinct-append : (xs : List ℕ) (r : ℕ) → Distinct xs → NotIn r xs → Distinct (xs ++ r ∷ [])
Distinct-append [] r d h = (tt, tt)
Distinct-append (x ∷ xs) r d h =
    (NotIn-append x xs r d.0 (λ e. h.0 (sym e)), Distinct-append xs r d.1 h.1)

pub turn-IsRing :
    (s : Scheduler) (x : ℕ) (xs : List ℕ)
    → IsRing s (x ∷ xs)
    → IsRing (record s { running_thread = x }) (xs ++ s.running_thread ∷ [])
turn-IsRing s x xs ring = record {
  links = Links-turn s.threads x xs s.running_thread x ring.links.2 ring.links.0 ring.links.1;
  distinct = Distinct-append (x ∷ xs) s.running_thread ring.distinct.1 ring.distinct.0;
  started = ring.started;
  counted = omega (arith, ring.counted, length-append xs (s.running_thread ∷ []));
}

Links-same :
    (f g : ℕ → Thread) (p : ℕ) (xs : List ℕ) (r : ℕ)
    → ((q : ℕ) → (g q).next_thread ≡ (f q).next_thread)
    → ((q : ℕ) → (g q).prev_thread ≡ (f q).prev_thread)
    → Links f p xs r
    → Links g p xs r
Links-same f g p [] r nexts prevs (n, v) = (nexts p ∙ n, prevs r ∙ v)
Links-same f g p (x ∷ xs) r nexts prevs (n, v, l) =
    (nexts p ∙ n, prevs x ∙ v, Links-same f g x xs r nexts prevs l)

-- A ring does not depend on the other members of its threads.
pub put-IsRing :
    (s : Scheduler) (behind : List ℕ) (at : ℕ) (t : Thread)
    → t.next_thread ≡ (s.threads at).next_thread
    → t.prev_thread ≡ (s.threads at).prev_thread
    → IsRing s behind
    → IsRing (record s { threads = put at t s.threads }) behind
put-IsRing s behind at t next prev ring = record {
  links =
      Links-same s.threads (put at t s.threads) s.running_thread behind s.running_thread
        (λ q. ground arith) (λ q. ground arith) ring.links;
  distinct = ring.distinct;
  started = ring.started;
  counted = ring.counted;
}
