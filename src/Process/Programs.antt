-- ===== src/Process/Programs.antt =====
-- The thread that hot_exec_elf of limine-c-template-x86-64/kernel/src/scheduler.c makes for a program.
use willow_os.Prelude.{ℕ, ◌≡◌, List, ◌∷◌}
use willow_os.Memory.{Memory}
use willow_os.Sched.{Thread, Scheduler, create_thread}
use willow_os.Sched.Ring.{IsRing}
use willow_os.Process.{ThreadBlocks}

-- The new thread comes behind the running one, with the members it was given.
abbrev pub Pushes : ThreadBlocks → Thread → List ℕ → Scheduler → Type 0
Pushes b t behind s =
    IsRing s (b.thread ∷ behind)
    × ((s.threads b.thread).pid ≡ t.pid)
    × ((s.threads b.thread).thread_entry ≡ t.thread_entry)
    × ((s.threads b.thread).elf_entry ≡ t.elf_entry)
    × ((s.threads b.thread).elf_file ≡ t.elf_file)
    × ((s.threads b.thread).cr3 ≡ t.cr3)
    × ((s.threads b.thread).fd_table ≡ t.fd_table)

-- The thread that hot_exec_elf leaves: it starts in `run_elf` with the entry of the file's header.
abbrev pub program_thread : ThreadBlocks → (cr3 run_elf pid elf entry : ℕ) → Thread
program_thread b cr3 run_elf pid elf entry = record (create_thread b.stack b.fd_table pid run_elf) {
  elf_entry = entry;
  elf_file = elf;
  cr3 = cr3;
}
