-- ===== src/Exit.antt =====
-- The end of a thread: scheduler_return of limine-c-template-x86-64/kernel/src/scheduler.c.
use willow_os.Prelude.{
  ℕ, zero, suc, ◌+◌, ◌-◌, ◌%◌, ◌^◌, Bool, true, false, ◌&&◌, ◌||◌, Option, none, some, List, [],
  ◌∷◌, ◌++◌, ◌==◌, if◌then◌else◌, not,
}
use willow_os.Paging.{Mapping, Mappings}
use willow_os.Sched.{
  Thread, Scheduler, put, set_next, discard_thread, push_new, idle_pid, thread_stack_size,
}
pub mod Search
pub mod Leaving

-- What a thread that ends gives back, in the order of the calls.
pub data Call : Type 0 where
  unload_elf : (file cr3 : ℕ) → Call
  unmap_page : (cr3 virt_address : ℕ) → Call
  kfree : ℕ → Call
  kfree_interruptable : ℕ → Call
  free_frame : ℕ → Call

-- How the function ends: it continues with a thread's stack, it halts, or it falls off its end.
pub data Leave : Type 0 where
  resumed : ℕ → Leave
  halted : Leave
  fell_off : Leave

pub record Exit : Type 0 where
  pub leave : Leave
  pub calls : List Call
  pub scheduler : Scheduler

-- The loop over the used slots of the mappings.
unfoldable pub unmap_calls : (cr3 : ℕ) → List Mapping → List Call
unmap_calls cr3 [] = []
unmap_calls cr3 (e ∷ rest) =
    let later = unmap_calls cr3 rest in
    if e.used then unmap_page cr3 e.virt_address ∷ later else later

-- The calls before the thread leaves the ring; `buckets` is read from its table of descriptors.
unfoldable pub calls_before : (buckets : ℕ) → Thread → List Call
calls_before buckets t =
    (if not (t.elf_entry == 0) && not (t.elf_file == 0)
      then unload_elf t.elf_file t.cr3 ∷ []
      else [])
    ++ unmap_calls t.cr3 t.mappings.mapped_virt_addresses_array
    ++ kfree t.fd_table ∷ kfree buckets ∷ []

-- The calls after it has left the ring.
abbrev pub calls_after : (hhdm_offset temp : ℕ) → Thread → List Call
calls_after hhdm_offset temp t =
    kfree_interruptable (t.stack_base - thread_stack_size)
    ∷ free_frame (t.cr3 - hhdm_offset)
    ∷ kfree_interruptable temp
    ∷ []

-- The ring and the count without the thread `temp`, the running thread being `next_thread`.
unfoldable pub without_thread : (temp next_thread : ℕ) → Scheduler → Scheduler
without_thread temp next_thread s = record s {
  threads = discard_thread temp s.threads;
  running_thread = next_thread;
  num_threads = (s.num_threads + 2 ^ 64 - 1) % 2 ^ 64;
}

-- The loop over blocked threads: the thread to continue with, or `none` inside if it comes to the
-- pid of the thread that ends; `none` is a loop that is still running.
unfoldable pub find_ready : (rounds temp_pid next_thread : ℕ) → (ℕ → Thread) → Option (Option ℕ)
find_ready zero temp_pid next_thread threads = none
find_ready (suc k) temp_pid next_thread threads =
    let n = (threads next_thread).next_thread in
    let later = find_ready k temp_pid n threads in
    if (threads next_thread).blocked == 1
    then (if (threads n).pid == temp_pid then some none else later)
    else some (some next_thread)

-- The branch `kill_and_switch_to_idle`, with the thread that `hot_create_and_push_thread` makes.
unfoldable pub switch_to_idle :
    (hhdm_offset buckets temp idle : ℕ) (idle_thread : Thread) → Scheduler → Exit
switch_to_idle hhdm_offset buckets temp idle idle_thread s =
    let t = s.threads temp in
    let left = without_thread temp (s.threads temp).next_thread s in
    let s' = push_new idle (record left { threads = put idle idle_thread left.threads }) in
    let next = (s'.threads s'.running_thread).next_thread in
    record {
      leave = if (s'.threads next).pid == idle_pid then resumed next else halted;
      calls = calls_before buckets t ++ calls_after hhdm_offset temp t;
      scheduler = s';
    }

-- The branch that continues with `next_thread`.
unfoldable pub switch_to_next : (hhdm_offset buckets temp next_thread : ℕ) → Scheduler → Exit
switch_to_next hhdm_offset buckets temp next_thread s =
    let t = s.threads temp in
    let s' = without_thread temp (s.threads temp).next_thread s in
    if (s.threads next_thread).blocked == 0
    then (record {
      leave = resumed next_thread;
      calls = calls_before buckets t ++ calls_after hhdm_offset temp t;
      scheduler = record s' { threads = set_next temp 0 s'.threads };
    })
    else (record {
      leave = fell_off;
      calls = [];
      scheduler = record s { running_thread = (s.threads temp).next_thread };
    })

abbrev pub after_search : (to_idle : Exit) (to_next : ℕ → Exit) → Option (Option ℕ) → Option Exit
after_search to_idle to_next none = none
after_search to_idle to_next (some none) = some to_idle
after_search to_idle to_next (some (some next_thread)) = some (to_next next_thread)

-- `scheduler_return` of the running thread. `rounds` bounds the loop over blocked threads.
unfoldable pub scheduler_return :
    (rounds hhdm_offset buckets idle : ℕ) (idle_thread : Thread) → Scheduler → Option Exit
scheduler_return rounds hhdm_offset buckets idle idle_thread s =
    let temp = s.running_thread in
    let next_thread = (s.threads temp).next_thread in
    let to_idle = switch_to_idle hhdm_offset buckets temp idle idle_thread s in
    if (s.threads next_thread).pid == (s.threads temp).pid
    then some to_idle
    else after_search to_idle (λ next. switch_to_next hhdm_offset buckets temp next s)
        (find_ready rounds (s.threads temp).pid next_thread s.threads)
