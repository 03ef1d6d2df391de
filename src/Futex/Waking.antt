-- ===== src/Futex/Waking.antt =====
-- What the calls to wait and to wake of limine-c-template-x86-64/kernel/src/syscalls.c do.
use willow_os.Prelude.{ℕ, ◌≡◌, ◌≢◌, refl, ◌⊎◌, inl, inr, none, some, ◌==◌, arith, Bool-cases}
use willow_os.Frame.{Machine}
use willow_os.Futex.{
  Futexes, init_futex, search_queue, futex_enqueue, syscall11, wake_loop, syscall12,
}

-- On the array that init_futex makes, a wait that finds the expected value and every call to wake read
-- through NULL; a wait that finds another value answers EAGAIN, 11, and changes nothing.
pub init_futex-faults :
    (new_queue : ℕ) (past_end : ℕ → ℕ) (m : Machine) (cr3 pointer value expected thread : ℕ)
    (s : Futexes)
    → (((s.status thread ≡ value)
          × (syscall11 new_queue past_end m cr3 pointer value expected thread (init_futex s)
              ≡ none))
        ⊎ ((s.status thread ≢ value)
            × (syscall11 new_queue past_end m cr3 pointer value expected thread (init_futex s)
                ≡ some (11, init_futex s))))
      × (syscall12 pointer (init_futex s) ≡ none)
unfolding syscall11 syscall12 futex_enqueue init_futex search_queue wake_loop
init_futex-faults new_queue past_end m cr3 pointer value expected thread s = (
  elim (Bool-cases (s.status thread == value)) [
    | inl e ↦ inl (ground arith, rw e refl)
    | inr e ↦ inr ((λ k. ground arith), rw e refl)
  ],
  refl,
)
