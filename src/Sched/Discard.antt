-- ===== src/Sched/Discard.antt =====
-- The running thread out of the ring: discard_thread.
use willow_os.Prelude.{ℕ, ◌≡◌, ◌≢◌, refl, sym, List, [], ◌∷◌, arith, ◌∙◌}
use willow_os.Sched.{Thread, discard_thread}
use willow_os.Sched.Ring.{Links, NotIn, Distinct}

-- The way ends at the thread that precedes `r`.
Links-last :
    (f : ℕ → Thread) (p : ℕ) (xs : List ℕ) (r q : ℕ)
    → Links f p xs r
    → NotIn q (p ∷ xs)
    → q ≢ (f r).prev_thread
Links-last f p [] r q (n, v) (qp, _) = λ h. qp (h ∙ v)
Links-last f p (x ∷ xs) r q (n, v, l) (qp, nq) = Links-last f x xs r q l nq

-- The way from `p` ends at `y` instead, once the last thread is linked with `y`.
Links-close :
    (f g : ℕ → Thread) (p : ℕ) (xs : List ℕ) (r y e : ℕ)
    → (f r).prev_thread ≡ e
    → (g e).next_thread ≡ y
    → (g y).prev_thread ≡ e
    → ((q : ℕ) → q ≢ e → (g q).next_thread ≡ (f q).next_thread)
    → ((q : ℕ) → q ≢ y → (g q).prev_thread ≡ (f q).prev_thread)
    → Distinct (p ∷ xs)
    → NotIn y xs
    → Links f p xs r
    → Links g p xs y
Links-close f g p [] r y e is_e next prev nexts prevs d ny (n, v) = (cc, cc)
Links-close f g p (x ∷ xs) r y e is_e next prev nexts prevs (np, d) (yx, ny) (n, v, l) = (
  nexts p (λ h. Links-last f x xs r p l np (h ∙ sym is_e)) ∙ n,
  prevs x (λ h. yx (sym h)) ∙ v,
  Links-close f g x xs r y e is_e next prev nexts prevs d ny l,
)

module _ (f : ℕ → Thread) (t nx pv : ℕ) (n : (f t).next_thread ≡ nx) (v : (f t).prev_thread ≡ pv)
    (more : t ≢ pv) where
  discard-next_prev : (discard_thread t f pv).next_thread ≡ nx
  unfolding discard_thread
  discard-next_prev = ground arith

  discard-prev_next : (discard_thread t f nx).prev_thread ≡ pv
  unfolding discard_thread
  discard-prev_next = ground arith

  discard-next_other : (q : ℕ) → q ≢ pv → (discard_thread t f q).next_thread ≡ (f q).next_thread
  unfolding discard_thread
  discard-next_other q h = ground arith

  discard-prev_other : (q : ℕ) → q ≢ nx → (discard_thread t f q).prev_thread ≡ (f q).prev_thread
  unfolding discard_thread
  discard-prev_other q h = ground arith

-- The running thread taken out of a ring of two threads or more: the next thread heads the ring of
-- the others, in the same order.
pub discard_thread-Links :
    (f : ℕ → Thread) (r x : ℕ) (xs : List ℕ)
    → Links f r (x ∷ xs) r
    → Distinct (r ∷ x ∷ xs)
    → Links (discard_thread r f) x xs x
discard_thread-Links f r x xs (n, v, l) (nr, d) =
    Links-close f (discard_thread r f) x xs r x (f r).prev_thread refl
      (discard-next_prev f r x (f r).prev_thread n refl more)
      (discard-prev_next f r x (f r).prev_thread n refl more)
      (discard-next_other f r x (f r).prev_thread n refl more)
      (discard-prev_other f r x (f r).prev_thread n refl more) d d.0 l
  where
    more : r ≢ (f r).prev_thread
    more = Links-last f x xs r r l nr
