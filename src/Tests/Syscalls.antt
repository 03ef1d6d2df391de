-- ===== src/Tests/Syscalls.antt =====
-- The theorems on the system calls for memory of syscalls.c at concrete arguments.
use willow_os.Memory.{Memory}

abbrev memory : Memory
memory a = 0
