-- ===== src/Syscalls.antt =====
-- System calls for memory: sys_vm_map and sys_vm_unmap as a program calls them, and syscall7, syscall8
-- and syscall13 as the kernel answers them, of limine-c-template-x86-64/kernel/src/syscalls.c. The
-- memory is that of the calling program; addresses of bytes do not wrap around.
use willow_os.Prelude.{
  ℕ, zero, suc, ◌+◌, ◌-◌, ◌*◌, ◌/◌, ◌%◌, ◌^◌, bit_or, Bool, true, false, Option, none, some, ◌==◌,
  leb, if◌then◌else◌,
}
use willow_os.Memory.{Memory, memset}
use willow_os.Paging.{Space, einval, map_range, unmap_page, change_page_map_range}
use willow_os.Loader.{word}
pub mod Permissions
pub mod Mapping
pub mod Unmapping

-- Constants of mman.h.
abbrev pub map_shared : ℕ
map_shared = 1

abbrev pub map_private : ℕ
map_private = 2

abbrev pub map_fixed : ℕ
map_fixed = 16

abbrev pub map_anon : ℕ
map_anon = 32

-- `(x >> k) & 1`.
abbrev pub bit : (k x : ℕ) → ℕ
bit k x = x / 2 ^ k % 2

-- The page permissions that `sys_vm_map` makes of `prot`: `~(1 << 0)` is an int, widened to 64 bits.
unfoldable pub permissions_of : (prot : ℕ) → ℕ
permissions_of prot =
    let readable = if bit 0 prot == 1 then 0 else bit_or 0 (2 ^ 64 - 2) in
    let writable = if bit 1 prot == 1 then bit_or readable 2 else readable in
    let executable = if bit 2 prot == 0 then bit_or writable (2 ^ 63) else writable in
    bit_or executable 1

-- The members of `struct map_page_bytes_args` that are set, and the flag, which is 0 if it is not set.
pub record MapArgs : Type 0 where
  pub virt_address : ℕ
  pub permissions : ℕ
  pub size : ℕ
  pub flag : ℕ
  pub error : ℕ

-- What a call leaves: its result, its arguments, whether interrupts are enabled again, and the state.
pub record Reply : Type 0 where
  pub result : ℕ
  pub args : MapArgs
  pub restored : Bool
  pub space : Space
  pub memory : Memory

-- The test `virt_address & 0xfff != 0` is `virt_address & 1`. The memory is the one that shows once the
-- pages are mapped; `none` is the failed assertion, on the word at index 256.
unfoldable pub syscall7 : (cr3 : ℕ) → MapArgs → Space → Memory → Option Reply
syscall7 cr3 args s m =
    let (error, s') = map_range cr3 args.virt_address args.permissions args.size args.flag s in
    let m' = memset args.virt_address 0 args.size m in
    if args.virt_address % 2 == 1
    then some (record { result = einval; args = args; restored = false; space = s; memory = m })
    else if word 8 m' (args.virt_address + 2048) == 0
    then some (record {
      result = error;
      args = record args { error = error };
      restored = true;
      space = s';
      memory = m';
    })
    else none

-- `flags & (0xF << 4)` and `flags & 0xF`.
abbrev pub kind_bits : (flags : ℕ) → ℕ
kind_bits flags = flags / 16 % 16 * 16

abbrev pub sharing_bits : (flags : ℕ) → ℕ
sharing_bits flags = flags % 16

abbrev pub sharing_flag : (flags : ℕ) → ℕ
sharing_flag flags =
    if sharing_bits flags == map_shared
    then map_shared
    else if sharing_bits flags == map_private
    then map_private
    else 0

-- What sys_vm_map ends in: a result and the window that it stores, if it stores one; a result that is
-- never set, with nothing done; or a stopped machine.
pub data Mapped : Type 0 where
  returned : (result : ℕ) (window : Option ℕ) → Space → Memory → Mapped
  unset : Mapped
  stopped : Mapped

abbrev pub answered : (hint : ℕ) → Option Reply → Mapped
answered hint none = stopped
answered hint (some r) =
    if r.args.error == 0
    then returned 0 (some hint) r.space r.memory
    else returned r.args.error none r.space r.memory

unfoldable pub sys_vm_map : (cr3 hint size prot flags : ℕ) → Space → Memory → Mapped
unfolding permissions_of syscall7
sys_vm_map cr3 hint size prot flags s m =
    let args : MapArgs = record {
      virt_address = hint;
      permissions = permissions_of prot;
      size = size;
      flag = sharing_flag flags;
      error = 0;
    } in
    if kind_bits flags == map_anon
    then answered hint (syscall7 cr3 args s m)
    else if kind_bits flags == map_fixed
    then answered hint (syscall7 cr3 args s m)
    else unset

-- The pages that `syscall8` takes for a size.
unfoldable pub num_pages : (size : ℕ) → ℕ
num_pages size =
    if leb size 4096 then 1 else (if size % 4096 == 0 then size / 4096 else size / 4096 + 1)

unfoldable pub unmap_rounds : (rounds i cr3 pointer : ℕ) → Space → Space
unmap_rounds zero i cr3 pointer s = s
unmap_rounds (suc k) i cr3 pointer s =
    unmap_rounds k (i + 1) cr3 pointer (unmap_page cr3 ((pointer + i * 4096) % 2 ^ 64) s)

-- `none` is a failed assertion.
unfoldable pub syscall8 : (cr3 pointer size : ℕ) → Space → Option (ℕ × Space)
unfolding num_pages unmap_rounds
syscall8 cr3 pointer size s =
    if pointer == 0
    then none
    else if cr3 == 0
    then none
    else some (0, unmap_rounds (num_pages size) 0 cr3 pointer s)

-- `block` is what kmalloc_byte returns; it is stored through the caller's pointer.
unfoldable pub syscall13 : (cr3 block size : ℕ) → Space → Memory → ℕ × ℕ × Space × Memory
syscall13 cr3 block size s m = (
  0,
  block,
  record s { machine = (change_page_map_range cr3 block size 7 s.machine).1 },
  memset block 0 (size + 4096) m,
)
