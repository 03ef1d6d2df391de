-- ===== src/Lib.antt =====
-- willowOS: a hobby kernel for x86-64. This library models the parts of its core that keep state of
-- their own, as functions on explicit states, and states what they do. Paths are from the
-- repository's root; the kernel's sources lie in limine-c-template-x86-64/kernel/src.
--
-- The parts and how they meet. The boot loader's memory map becomes a list of regions with a byte per
-- frame (main.c: init_memmaps); frames are taken from it and given back (paging.c: alloc_frame,
-- free_frame). Page tables are built in frames and read through a window of physical memory at
-- hhdm_offset (paging.c), and while a thread runs map_page and unmap_page also record its mappings. The
-- heap (vmm.c) is a list of nodes of 64-byte chunks on frames of its own. Threads form a ring that
-- scheduler.c links, walks and switches; a thread that ends returns its mappings, blocks and frames.
-- Files in memory (tmpfs.c) lie in blocks of the heap and copy bytes with the loops of main.c; vfs.c
-- reaches them by paths through nodes and hands out numbers for open files. A program is loaded by
-- loader.c into pages of its own and asks for more by the system calls of syscalls.c.
--
-- The files.
--   Prelude    shared names, tests on numbers, lists indexed by them, facts on `|`.
--   Heap       kmalloc, kfree, kfree_interruptable, kmalloc_byte, kmalloc_byte_interruptable and
--              krealloc_byte of vmm.c. The list from heap_page_head is a list of nodes; a suffix of it
--              is a pointer into it.
--   Memory     memcpy, memmove, memset, memcmp and kstrlen of main.c, on a function from addresses to
--              bytes.
--   Frame      alloc_frame and free_frame of paging.c.
--   Paging     map_page, map_range, unmap_page, change_page_map, change_page_map_range, virt_to_phys
--              and virt_to_phys_page of paging.c, on a function from addresses to 64-bit words;
--              Paging/Bookkeeping is the array of mappings of the running thread.
--   Boot       init_memmaps of main.c, init_heap of vmm.c, create_descriptor and
--              create_tss_descriptor of gdt.c.
--   Sched      the ring of threads of scheduler.c: insert_thread, discard_thread, push_thread,
--              create_thread, start_thread, get_thread_by_pid, block_thread, unblock_thread,
--              sleep_thread, reschedule, get_new_pid. A thread is named by its address.
--   Exit       scheduler_return of scheduler.c; what it gives back is a list of calls.
--   Mutex      acquire_mutex and release_mutex of mutex.c, and a step relation for the threads that use
--              one mutex.
--   Tmpfs      directories and files of tmpfs.c; a directory is an array of addresses of entries.
--   Vfs        the nodes over tmpfs: vfs_resolve_path and vnode_mount_vfs of vfs.c, tmpfs_link_vnode
--              and the vnode_tmpfs_ functions of tmpfs.c. A node is named by its address.
--   Descriptors  vfs_fdopen, vfs_fdclose, vfs_int_fd_to_vfs_file, pread, pwrite, fd_pread and
--              fd_pwrite of vfs.c, over a record that stands for oa_hash.
--   Loader     load_elf and unload_elf of loader.c.
--   Stack      com_sys_elf64_prepare_stack of loader.c.
--   Interrupts idt_set_descriptor and idt_init of idt.c, setup_gdt, setup_tss and change_tss of gdt.c,
--              and the selectors of init_syscalls.
--   Clock      tsc.c, hpet_get_elapsed_ns of hpet.c, and the timer counts of apic.c.
--   KernelApi  uacpi_kernel_map of kernel_api.c.
--   Keyboard   is_lshift and print_kb of kutils.c under ps2_keyboard_handler of idt.c.
--   Process    create_new_userspace_page_table, hot_create_and_push_thread,
--              hot_create_and_push_user_thread and hot_exec_elf of scheduler.c.
--   Syscalls   sys_vm_map, syscall7, syscall8 and syscall13 of syscalls.c.
--   Futex      init_futex and futex_enqueue of mutex.c, syscall11 and syscall12 of syscalls.c.
--   Strings    uint64_to_string, oct2bin and tar_lookup of kutils.c.
--   Tests      the theorems at concrete states.
--
-- Bounds and fuel. Machine words wrap at 2^64 where the code computes with them; addresses of the byte
-- loops do not wrap. Loops over a list are recursion on it. The loops of free_frame, kstrlen,
-- reschedule, scheduler_return, acquire_mutex, uint64_to_string, sleep_thread and tar_lookup run on
-- rounds, and the theorems say how many are enough: one for each region, byte, thread or header, two
-- for the mutex, 21 for a 64-bit number; where no number is enough, that is the theorem.
--
-- The loops over program headers run on 65,536 rounds, one for each value of their 16-bit number.
--
-- Parameters. strcmp is a test on names in Tmpfs and Vfs. kmalloc_byte is a function from the number of
-- the call to a block in Vfs, and single blocks elsewhere. oa_hash is a record of operations with the
-- laws that its header states, where keys are kept by address and keep their meaning only while their
-- texts stand; npf_snprintf is a function that prints different numbers differently. strlen in Stack is a
-- function of the memory and an address that depends on the bytes of its string alone.
--
-- Not modelled: the vendored libraries (uacpi, flanterm, nanoprintf, oa_hash, fireworks, string.c), the
-- drivers as far as they only read and write device registers (apic.c, ioapic.c, hpet.c, handlers of
-- idt.c), the tables of apic.c that uacpi replaces, assembly, logs, the set-up of the file systems, and
-- userspace_run_elf. What strcat writes past
-- the copy of a relative path, and what becomes of a freed key buffer, are outside the model. Calls
-- with interrupts off are one step. The pages that load_elf fills are new, so that filling them changes
-- no page table. Text that tar_lookup reads as a number consists of the digits '0' to '7' and states a
-- size below 2^31, where int does not overflow.

pub mod Boot
pub mod Clock
pub mod Descriptors
pub mod Exit
pub mod Frame
pub mod Futex
pub mod Heap
pub mod Interrupts
pub mod KernelApi
pub mod Keyboard
pub mod Loader
pub mod Memory
pub mod Mutex
pub mod Paging
pub mod Prelude
pub mod Process
pub mod Sched
pub mod Stack
pub mod Strings
pub mod Syscalls
pub mod Tests
pub mod Tmpfs
pub mod Vfs
