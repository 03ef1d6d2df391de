-- ===== src/Syscalls/Unmapping.antt =====
-- The pages that syscall8 of limine-c-template-x86-64/kernel/src/syscalls.c unmaps, against those that
-- map_range of paging.c maps.
use willow_os.Prelude.{ℕ, ◌+◌, ◌-◌, ◌%◌, ◌^◌, ◌≤◌, ◌<◌, ◌≡◌, ◌≢◌, ◌⊎◌, arith}
use willow_os.Paging.{pages_of}
use willow_os.Syscalls.{num_pages}

-- For a size that is not 0 and a range that ends below 2^64, the pages that syscall8 unmaps from an
-- address are as many as map_range maps for the same range, if the address's offset in its page and
-- that of the range's last byte from the address, both modulo the page size, make up less than a
-- page; else the last page stays mapped.
pub num_pages-pages_of :
    (pointer size : ℕ)
    → size ≢ 0
    → pointer + size < 2 ^ 64
    → ((num_pages size ≡ pages_of pointer size) × (pointer % 4096 + (size - 1) % 4096 < 4096))
      ⊎ ((num_pages size + 1 ≡ pages_of pointer size) × (4096 ≤ pointer % 4096 + (size - 1) % 4096))
unfolding num_pages pages_of
num_pages-pages_of pointer size some_bytes below = ground arith
