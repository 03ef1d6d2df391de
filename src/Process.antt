-- ===== src/Process.antt =====
-- New threads with address spaces of their own: create_new_userspace_page_table,
-- hot_create_and_push_thread, hot_create_and_push_user_thread and hot_exec_elf of
-- limine-c-template-x86-64/kernel/src/scheduler.c.
use willow_os.Prelude.{ℕ, zero, suc, ◌+◌, ◌%◌, ◌^◌}
use willow_os.Memory.{Memory}
use willow_os.Frame.{Machine, alloc_frame}
use willow_os.Paging.{Space, slot, write}
use willow_os.Sched.{Thread, Scheduler, put, create_thread, push_new}
use willow_os.Loader.{load_elf}
pub mod Tables
pub mod Kernel
pub mod Programs

-- `cr3[i] = 0` for `rounds` entries from `i` on.
unfoldable pub clear_entries : (rounds i cr3 : ℕ) → (ℕ → ℕ) → ℕ → ℕ
clear_entries zero i cr3 words = words
clear_entries (suc k) i cr3 words = clear_entries k (i + 1) cr3 (write words (slot cr3 i) 0)

-- `cr3[i] = pml4[i]` for `rounds` entries from `i` on.
unfoldable pub copy_entries : (rounds i cr3 pml4 : ℕ) → (ℕ → ℕ) → ℕ → ℕ
copy_entries zero i cr3 pml4 words = words
copy_entries (suc k) i cr3 pml4 words =
    copy_entries k (i + 1) cr3 pml4 (write words (slot cr3 i) (words (slot pml4 i)))

-- The window's address of the new table, and the machine; `pml4` is `pml4_address_virt_glob`.
unfoldable pub create_new_userspace_page_table : (pml4 : ℕ) → Machine → ℕ × Machine
unfolding clear_entries copy_entries
create_new_userspace_page_table pml4 m =
    let (frame, m') = alloc_frame m in
    let cr3 = (frame + m.hhdm_offset) % 2 ^ 64 in
    (cr3, record m' { words = copy_entries 256 256 cr3 pml4 (clear_entries 512 0 cr3 m'.words) })

-- The threads, the running thread's space, and the memory as the new address space shows it.
pub record System : Type 0 where
  pub scheduler : Scheduler
  pub space : Space
  pub memory : Memory

-- The addresses that `create_thread` takes from the heap.
pub record ThreadBlocks : Type 0 where
  pub thread : ℕ
  pub stack : ℕ
  pub fd_table : ℕ

abbrev pub pushed : (thread : ℕ) → Thread → Scheduler → Scheduler
pushed thread t s = push_new thread (record s { threads = put thread t s.threads })

abbrev pub with_machine : Machine → Space → Space
with_machine m s = record s { machine = m }

unfoldable pub hot_create_and_push_thread :
    (b : ThreadBlocks) (pml4 pid thread_entry : ℕ) → System → System
unfolding create_new_userspace_page_table
hot_create_and_push_thread b pml4 pid thread_entry s =
    let (new_cr3, m) = create_new_userspace_page_table pml4 s.space.machine in
    let t = create_thread b.stack b.fd_table pid thread_entry in
    record s {
      scheduler =
          pushed b.thread (record t { cr3 = new_cr3; elf_entry = 0; elf_file = 0 }) s.scheduler;
      space = with_machine m s.space;
    }

-- The thread starts in userspace_run_elf, whose address is `run_elf`, which jumps to the entry.
unfoldable pub hot_create_and_push_user_thread :
    (b : ThreadBlocks) (pml4 run_elf pid thread_entry : ℕ) → System → System
unfolding create_new_userspace_page_table
hot_create_and_push_user_thread b pml4 run_elf pid thread_entry s =
    let (new_cr3, m) = create_new_userspace_page_table pml4 s.space.machine in
    let t = create_thread b.stack b.fd_table pid run_elf in
    record s {
      scheduler =
          pushed b.thread (record t { elf_entry = thread_entry; cr3 = new_cr3; elf_file = 0 })
            s.scheduler;
      space = with_machine m s.space;
    }

unfoldable pub hot_exec_elf : (b : ThreadBlocks) (pml4 run_elf pid elf : ℕ) → System → System
unfolding create_new_userspace_page_table
hot_exec_elf b pml4 run_elf pid elf s =
    let (new_cr3, m) = create_new_userspace_page_table pml4 s.space.machine in
    let t = create_thread b.stack b.fd_table pid run_elf in
    let (entry, space, memory) = load_elf elf new_cr3 (with_machine m s.space) s.memory in
    record {
      scheduler =
          pushed b.thread (record t { elf_entry = entry; elf_file = elf; cr3 = new_cr3 })
            s.scheduler;
      space = space;
      memory = memory;
    }
