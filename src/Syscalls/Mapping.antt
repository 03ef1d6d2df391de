-- ===== src/Syscalls/Mapping.antt =====
-- What sys_vm_map of limine-c-template-x86-64/kernel/src/syscalls.c ends in.
use willow_os.Prelude.{ℕ, ◌+◌, ◌%◌, ◌<◌, ◌≡◌, ◌≢◌, ◌⊎◌, none, some}
use willow_os.Memory.{Memory, memset}
use willow_os.Paging.{Space, einval, map_range}
use willow_os.Loader.{word}
use willow_os.Syscalls.{
  map_anon, map_fixed, permissions_of, MapArgs, kind_bits, sharing_flag, Mapped, returned, stopped,
}

-- `flags` asks for one of the two kinds of mapping.
abbrev pub IsKind : (flags : ℕ) → Type 0
IsKind flags = (kind_bits flags ≡ map_anon) ⊎ (kind_bits flags ≡ map_fixed)

module _ (cr3 hint size prot flags : ℕ) (s : Space) (m : Memory) where
  abbrev args : MapArgs
  args = record {
    virt_address = hint;
    permissions = permissions_of prot;
    size = size;
    flag = sharing_flag flags;
    error = 0;
  }

  abbrev ranged : ℕ × Space
  ranged = map_range cr3 hint (permissions_of prot) size (sharing_flag flags) s

  -- What `sys_vm_map` makes of the answer of the kernel.
  pub data Answer (o : Mapped) : Type 0 where
    ignored : hint % 2 ≡ 1 → o ≡ returned 0 (some hint) s m → Answer o
    empty :
        hint % 2 ≡ 0
        → size ≡ 0
        → word 8 m (hint + 2048) ≡ 0
        → o ≡ returned einval none s m
        → Answer o
    mapped :
        hint % 2 ≡ 0
        → size ≢ 0
        → o ≡ returned 0 (some hint) ranged.1 (memset hint 0 size m)
        → Answer o
    cut_short :
        hint % 2 ≡ 0
        → size < 2056
        → word 8 (memset hint 0 size m) (hint + 2048) ≢ 0
        → o ≡ stopped
        → Answer o

  tested : ℕ
  tested = word 8 (memset hint 0 size m) (hint + 2048)
