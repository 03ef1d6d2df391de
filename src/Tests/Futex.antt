-- ===== src/Tests/Futex.antt =====
-- The theorem on waking at a queue of two threads.
use willow_os.Prelude.{[], ◌∷◌}
use willow_os.Futex.{Queue, Futexes}

abbrev queue : Queue
queue = record { pointer = 5000; threads = 71 ∷ 72 ∷ []; max_size = 64 }

abbrev waiting : Futexes
waiting = record {
  global_futex_array = λ i. 600;
  global_futex_array_size = 128;
  queues = λ a. queue;
  status = λ a. 1;
}
