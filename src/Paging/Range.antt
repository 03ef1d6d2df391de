-- ===== src/Paging/Range.antt =====
-- The number of pages that `map_range` and `change_page_map_range` go through.
use willow_os.Prelude.{ℕ, ◌+◌, ◌-◌, ◌/◌, ◌%◌, ◌^◌, ◌<◌, ◌≡◌, ◌≢◌, ◌==◌, leb, if◌then◌else◌, arith}
use willow_os.Paging.{pages_of}

-- For a size that is not 0 and a range that ends below 2^64, the pages that the two range functions
-- go through are those from the one that holds the first byte to the one that holds the last byte.
pub pages_of-covers :
    (virt_address size : ℕ)
    → size ≢ 0
    → virt_address + size < 2 ^ 64
    → virt_address / 4096 + pages_of virt_address size ≡ (virt_address + size - 1) / 4096 + 1
unfolding pages_of
pages_of-covers virt_address size some_bytes below =
    counted ((size + virt_address % 4096) % 2 ^ 64) (omega arith)
  where
    counted :
        (total : ℕ)
        → total ≡ size + virt_address % 4096
        → virt_address / 4096
            + (if leb total 4096
                then 1
                else (if total % 4096 == 0 then total / 4096 else total / 4096 + 1))
          ≡ (virt_address + size - 1) / 4096 + 1
    counted total h = ground arith
