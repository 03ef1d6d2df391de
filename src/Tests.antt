-- ===== src/Tests.antt =====
-- Examples of the theorems at concrete states.
mod Heap
mod Memory
mod Frame
mod Paging
mod Sched
mod Mutex
mod Tmpfs
mod Strings
mod Boot
mod Vfs
mod Descriptors
mod Loader
mod Syscalls
mod Futex
mod Process
mod Stack
mod Clock
mod Interrupts
mod Keyboard
mod KernelApi
