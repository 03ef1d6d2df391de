-- ===== src/Futex.antt =====
-- Futexes: futex_enqueue and init_futex of limine-c-template-x86-64/kernel/src/mutex.c, and the system
-- calls to wait and to wake, syscall11 and syscall12 of syscalls.c.
use willow_os.Prelude.{
  ℕ, zero, suc, ◌+◌, ◌-◌, ◌/◌, Bool, true, false, Option, none, some, List, [], ◌∷◌, ◌++◌, ◌==◌,
  ltb, if◌then◌else◌, length, get_or, ◌>>=◌,
}
use willow_os.Frame.{Machine}
use willow_os.Paging.{virt_to_phys}
pub mod Waking

-- `futex_queue_t`: the used slots of `threads`, `size` being their number.
pub record Queue : Type 0 where
  pub pointer : ℕ
  pub threads : List ℕ
  pub max_size : ℕ

-- global_futex_array by its slots, the queues by their addresses, and `status[3]` of the threads by
-- theirs. NULL is 0.
pub record Futexes : Type 0 where
  pub global_futex_array : ℕ → ℕ
  pub global_futex_array_size : ℕ
  pub queues : ℕ → Queue
  pub status : ℕ → ℕ

abbrev pub put_number : (ℕ → ℕ) → ℕ → ℕ → ℕ → ℕ
put_number f a v x = if x == a then v else f x

abbrev pub put_queue : (ℕ → Queue) → ℕ → Queue → ℕ → Queue
put_queue f a q x = if x == a then q else f x

-- The array of 128 slots, all NULL.
unfoldable pub init_futex : Futexes → Futexes
init_futex s = record s { global_futex_array = (λ i. 0); global_futex_array_size = 128 }

-- The size of the array as the loops compute it: one pointer by one pointer.
abbrev pub rounds : ℕ
rounds = 1

-- `if (i = global_futex_array_size - 1)` stores the last index in `i`. The array then moves to a block
-- of as many bytes as it has slots and 128 more, in which only that many bytes of slots are kept;
-- `past_end` is what stands behind them.
abbrev pub regrown : (past_end : ℕ → ℕ) → Futexes → Futexes
regrown past_end s = if s.global_futex_array_size - 1 == 0 then s else record s {
  global_futex_array = (λ i.
      if ltb i ((s.global_futex_array_size + 128) / 8) then s.global_futex_array i else past_end i);
}

-- The loop: the queue that it finds, NULL if none, and the array after it. `none` is a read through
-- NULL.
unfoldable pub search_queue :
    (rounds i : ℕ) (past_end : ℕ → ℕ) (pointer : ℕ) → Futexes → Option (ℕ × Futexes)
search_queue zero i past_end pointer s = some (0, s)
search_queue (suc k) i past_end pointer s =
    let rest = search_queue k (i + 1) past_end pointer s in
    if s.global_futex_array i == 0
    then none
    else if (s.queues (s.global_futex_array i)).pointer == pointer
    then some (
      (regrown past_end s).global_futex_array (s.global_futex_array_size - 1),
      regrown past_end s,
    )
    else rest

-- A queue that was not found is made at `new_queue`, in slot 0.
abbrev pub with_queue : (new_queue pointer found : ℕ) → Futexes → ℕ × Futexes
with_queue new_queue pointer found s =
    if found == 0
    then (
      new_queue,
      record s {
        global_futex_array = put_number s.global_futex_array 0 new_queue;
        queues =
            put_queue s.queues new_queue
              (record { pointer = pointer; threads = []; max_size = 64 });
      },
    )
    else (found, s)

abbrev pub append_thread : (queue thread : ℕ) → Futexes → Futexes
append_thread queue thread s =
    let q = s.queues queue in
    record s {
      queues = put_queue s.queues queue (record q {
        threads = q.threads ++ thread ∷ [];
        max_size = if length q.threads == q.max_size then q.max_size + 64 else q.max_size;
      });
    }

unfoldable pub futex_enqueue :
    (new_queue : ℕ) (past_end : ℕ → ℕ) (pointer thread : ℕ) → Futexes → Option Futexes
unfolding search_queue
futex_enqueue new_queue past_end pointer thread s =
    search_queue rounds 0 past_end pointer s >>= λ r.
    let (queue, s') = with_queue new_queue pointer r.0 r.1 in some (append_thread queue thread s')

-- Waiting: the result and the state, `none` for a read through NULL. `value` is `*pointer`, and the
-- thread's `status[3]` is compared with it and set to `expected`.
unfoldable pub syscall11 :
    (new_queue : ℕ) (past_end : ℕ → ℕ) (m : Machine) (cr3 pointer value expected thread : ℕ)
    → Futexes
    → Option (ℕ × Futexes)
unfolding futex_enqueue
syscall11 new_queue past_end m cr3 pointer value expected thread s =
    let s' = record s { status = put_number s.status thread expected } in
    if s.status thread == value
    then futex_enqueue new_queue past_end (virt_to_phys pointer cr3 m) thread s'
      >>= (λ t. some (0, t))
    else some (11, s)

-- The loop over a queue, which takes the thread at the outer index `i` in every round.
unfoldable pub wake_rounds : (rounds i queue : ℕ) → Futexes → Futexes
wake_rounds zero i queue s = s
wake_rounds (suc k) i queue s =
    wake_rounds k i queue
      (record s { status = put_number s.status (get_or (s.queues queue).threads i 0) 0 })

-- Waking: `global_futex_array[i] == NULL` compares and stores nothing.
unfoldable pub wake_loop : (rounds i pointer : ℕ) → Futexes → Option Futexes
unfolding wake_rounds
wake_loop zero i pointer s = some s
wake_loop (suc k) i pointer s =
    let queue = s.global_futex_array i in
    let woken =
      if (s.queues queue).pointer == pointer
      then wake_rounds (length (s.queues queue).threads) i queue s
      else s in
    let rest = wake_loop k (i + 1) pointer woken in if queue == 0 then none else rest

unfoldable pub syscall12 : (pointer : ℕ) → Futexes → Option (ℕ × Futexes)
unfolding wake_loop
syscall12 pointer s = wake_loop rounds 0 pointer s >>= λ t. some (0, t)
