-- ===== src/Sched.antt =====
-- The ring of threads: insert_thread, discard_thread, push_thread, block_thread, unblock_thread,
-- sleep_thread, get_thread_by_pid, create_thread, get_new_pid, start_thread and reschedule of
-- limine-c-template-x86-64/kernel/src/scheduler.c. A thread is named by its address, NULL is 0.
use willow_os.Prelude.{
  ℕ, zero, suc, ◌+◌, ◌-◌, ◌*◌, ◌%◌, ◌^◌, Bool, true, false, ◌&&◌, ◌||◌, Option, none, some, List,
  [], ◌∷◌, ◌==◌, if◌then◌else◌, not, replicate,
}
use willow_os.Paging.{Mappings, unused}
pub mod Ring
pub mod Push
pub mod Discard
pub mod Lookup
pub mod Switch

-- `thread_context` without the register save area, its times, and the words that nothing here
-- reads; `blocked` is status[3] and `userspace` is status[4].
pub record Thread : Type 0 where
  pub total_run_time : ℕ
  pub last_run_time : ℕ
  pub sleep_for_ms : ℕ
  pub quantum_ns : ℕ
  pub pid : ℕ
  pub thread_entry : ℕ
  pub stack_base : ℕ
  pub user_rsp : ℕ
  pub current_rsp : ℕ
  pub blocked : ℕ
  pub userspace : ℕ
  pub elf_entry : ℕ
  pub elf_file : ℕ
  pub mappings : Mappings
  pub fd_table : ℕ
  pub cr3 : ℕ
  pub fs_base : ℕ
  pub gs_base : ℕ
  pub current_dir : List ℕ
  pub next_thread : ℕ
  pub prev_thread : ℕ

pub record Scheduler : Type 0 where
  pub threads : ℕ → Thread
  pub running_thread : ℕ
  pub num_threads : ℕ
  pub first_thread : Bool

abbrev pub put : (at : ℕ) → Thread → (ℕ → Thread) → ℕ → Thread
put at t threads p = if p == at then t else threads p

abbrev pub set_next : (at next : ℕ) → (ℕ → Thread) → ℕ → Thread
set_next at next threads = put at (record (threads at) { next_thread = next }) threads

abbrev pub set_prev : (at prev : ℕ) → (ℕ → Thread) → ℕ → Thread
set_prev at prev threads = put at (record (threads at) { prev_thread = prev }) threads

-- The three asserts are on pointers that are not NULL.
unfoldable pub insert_thread : (left new right : ℕ) → (ℕ → Thread) → ℕ → Thread
insert_thread left new right threads =
    set_prev new left (set_next new right (set_prev right new (set_next left new threads)))

unfoldable pub discard_thread : ℕ → (ℕ → Thread) → ℕ → Thread
discard_thread thread threads =
    let linked = set_next (threads thread).prev_thread (threads thread).next_thread threads in
    set_prev (linked thread).next_thread (linked thread).prev_thread linked

unfoldable pub push_thread : ℕ → Scheduler → Scheduler
unfolding insert_thread
push_thread thread s =
    if s.first_thread || s.num_threads == 0
    then (record {
      threads = set_prev thread thread (set_next thread thread s.threads);
      running_thread = thread;
      num_threads = s.num_threads;
      first_thread = false;
    })
    else (record s {
      threads =
          insert_thread s.running_thread thread (s.threads s.running_thread).next_thread s.threads;
    })

-- `hot_create_and_push_thread`, once `create_thread` has filled in the thread.
unfoldable pub push_new : (thread : ℕ) → Scheduler → Scheduler
unfolding push_thread
push_new thread s =
    let s' = push_thread thread s in record s' { num_threads = (s'.num_threads + 1) % 2 ^ 64 }

-- The walk of `get_thread_by_pid` and of `block_thread`: `rounds` threads from `current_thread` on.
unfoldable pub find_pid : (rounds pid current_thread : ℕ) → (ℕ → Thread) → Option ℕ
find_pid zero pid current_thread threads = none
find_pid (suc k) pid current_thread threads =
    let later = find_pid k pid (threads current_thread).next_thread threads in
    if (threads current_thread).pid == pid then some current_thread else later

unfoldable pub get_thread_by_pid : (pid : ℕ) → Scheduler → Option ℕ
unfolding find_pid
get_thread_by_pid pid s = find_pid (s.num_threads + 1) pid s.running_thread s.threads

abbrev pub block_found : Scheduler → Option ℕ → Option ℕ × Scheduler
block_found s none = (none, s)
block_found s (some t) =
    if (s.threads t).blocked == 1
    then (none, s)
    else (some t, record s { threads = put t (record (s.threads t) { blocked = 1 }) s.threads })

-- Up to the software interrupt that follows when the thread blocks itself.
unfoldable pub block_thread : (pid : ℕ) → Scheduler → Option ℕ × Scheduler
unfolding find_pid
block_thread pid s = block_found s (find_pid (s.num_threads + 1) pid s.running_thread s.threads)

unfoldable pub unblock_thread : (thread : ℕ) → Scheduler → Scheduler
unblock_thread thread s =
    if (s.threads thread).blocked == 1
    then (record s { threads = put thread (record (s.threads thread) { blocked = 0 }) s.threads })
    else s

-- `sleep_thread`, which walks from `ready_queue_head` until it meets the pid or NULL, up to the
-- software interrupt that follows when the thread puts itself to sleep. It tests and sets status[4],
-- the flag that `reschedule` takes for userspace. `none` is a walk that goes on after the rounds.
abbrev pub fall_asleep : (thread now ms : ℕ) → Scheduler → ℕ × Scheduler
fall_asleep thread now ms s =
    if (s.threads thread).blocked == 1 || (s.threads thread).userspace == 1 then (0, s) else (
      thread,
      record s {
        threads =
            put thread
              (record (s.threads thread) {
                blocked = 1;
                last_run_time = now;
                sleep_for_ms = ms;
                userspace = 1;
              })
              s.threads;
      },
    )

unfoldable pub sleep_thread :
    (rounds ready_queue_head pid now ms : ℕ) → Scheduler → Option (ℕ × Scheduler)
sleep_thread zero current_thread pid now ms s = none
sleep_thread (suc k) current_thread pid now ms s =
    let later = sleep_thread k (s.threads current_thread).next_thread pid now ms s in
    if current_thread == 0
    then some (0, s)
    else (if (s.threads current_thread).pid == pid
        then some (fall_asleep current_thread now ms s)
        else later)

-- The four words that a new stack starts with, topmost first, and the stack pointer below them and
-- the 15 registers that `switch_thread` restores.
unfoldable pub start_thread :
    (sp entry scheduler_return disable_preemption enable_preemption : ℕ) → (ℕ → ℕ) → ℕ × (ℕ → ℕ)
start_thread sp entry scheduler_return disable_preemption enable_preemption words = (
  sp - 32 - 15 * 8,
  λ a.
      if a == sp - 32
      then enable_preemption
      else if a == sp - 24
      then entry
      else if a == sp - 16
      then disable_preemption
      else if a == sp - 8
      then scheduler_return
      else words a,
)

abbrev pub thread_stack_size : ℕ
thread_stack_size = 16000

-- `create_thread`: the context that it fills in, with the addresses that it has allocated for the
-- stack and for the table of file descriptors.
unfoldable pub create_thread : (stack fd_table pid thread_entry : ℕ) → Thread
create_thread stack fd_table pid thread_entry = record {
  total_run_time = 0;
  last_run_time = 0;
  sleep_for_ms = 0;
  quantum_ns = 10000000;
  pid = pid;
  thread_entry = thread_entry;
  stack_base = stack + thread_stack_size;
  user_rsp = 0;
  current_rsp = stack + thread_stack_size - 32 - 15 * 8;
  blocked = 0;
  userspace = 0;
  elf_entry = 0;
  elf_file = 0;
  mappings = record {
    mapped_virt_addresses_array = replicate 8 unused;
    num_mappings = 0;
    max_mappings = 8;
  };
  fd_table = fd_table;
  cr3 = 0;
  fs_base = 0;
  gs_base = 0;
  current_dir = 47 ∷ [];
  next_thread = 0;
  prev_thread = 0;
}

abbrev pub idle_pid : ℕ
idle_pid = 0xDEADBEEFCAFEBABE

-- How a call of `reschedule` after the first ends: it returns to the caller, or it stores the stack
-- pointer in the thread `from` and continues with that of the thread `to`.
pub data Ending : Type 0 where
  returned : Ending
  switched : (from to : ℕ) → Ending

-- The loop that waits for a thread that is not blocked: it moves `running_thread` and reads
-- `next_thread`. `none` is a loop that is still running after the rounds.
unfoldable pub wait_rounds : (rounds next_thread : ℕ) → Scheduler → Option (Bool × Scheduler)
wait_rounds zero next_thread s = none
wait_rounds (suc k) next_thread s =
    let s' = record s { running_thread = (s.threads s.running_thread).next_thread } in
    let later = wait_rounds k next_thread s' in
    if not ((s.threads next_thread).blocked == 1)
    then some (false, s)
    else (if (s.threads next_thread).pid == idle_pid then some (true, s') else later)

-- The end of `reschedule`, with the time that the timestamp counter shows.
abbrev pub switch : (now current_thread next_thread : ℕ) → Scheduler → Ending × Scheduler
switch now current_thread next_thread s =
    let pid = (s.threads next_thread).pid in
    if (s.threads next_thread).blocked == 0
    then (if pid == (s.threads (s.threads next_thread).prev_thread).pid
        then (returned, s)
        else (let s' = record s {
          threads =
              put current_thread (record (s.threads current_thread) { last_run_time = now })
                s.threads;
        } in
            (switched (s'.threads s'.running_thread).prev_thread s'.running_thread, s')))
    else (returned, s)

abbrev pub after_wait :
    (now current_thread next_thread : ℕ) → Option (Bool × Scheduler) → Option (Ending × Scheduler)
after_wait now current_thread next_thread none = none
after_wait now current_thread next_thread (some (true, s)) = some (returned, s)
after_wait now current_thread next_thread (some (false, s)) =
    some (switch now current_thread next_thread s)

-- `reschedule` once the first thread runs. `rounds` bounds the loop that waits.
unfoldable pub reschedule : (rounds now : ℕ) → Scheduler → Option (Ending × Scheduler)
unfolding wait_rounds
reschedule rounds now s =
    let current_thread = s.running_thread in
    let next_thread = (s.threads current_thread).next_thread in
    let s' = record s { running_thread = next_thread } in
    if (s.threads next_thread).pid == (s.threads (s.threads next_thread).prev_thread).pid
    then some (returned, s')
    else after_wait now current_thread next_thread (wait_rounds rounds next_thread s')

-- The counter that `get_new_pid` steps under its mutex.
unfoldable pub get_new_pid : (new_pid : ℕ) → ℕ × ℕ
get_new_pid new_pid = let next = (new_pid + 1) % 2 ^ 64 in (next, next)
