-- ===== src/KernelApi.antt =====
-- uacpi_kernel_map of limine-c-template-x86-64/kernel/src/kernel_api.c, by which uacpi reaches tables in
-- physical memory.
use willow_os.Prelude.{ℕ, zero, suc, ◌+◌, ◌-◌, ◌*◌, ◌/◌, ◌%◌, ◌^◌, ◌==◌, if◌then◌else◌}
use willow_os.Paging.{Space, map_page}
pub mod Pages

-- The first page and the end of the last one.
unfoldable pub page_down : (addr : ℕ) → ℕ
page_down addr = addr / 4096 * 4096

unfoldable pub page_up : (addr len : ℕ) → ℕ
page_up addr len =
    let end = (addr + len) % 2 ^ 64 in
    if end % 4096 == 0 then end else (end / 4096 * 4096 + 4096) % 2 ^ 64

unfoldable pub num_pages : (addr len : ℕ) → ℕ
unfolding page_down page_up
num_pages addr len = (page_up addr len + 2 ^ 64 - page_down addr) % 2 ^ 64 / 4096

unfoldable pub map_pages : (rounds i pml4 down : ℕ) → Space → Space
map_pages zero i pml4 down s = s
map_pages (suc k) i pml4 down s =
    map_pages k (i + 1) pml4 down (map_page pml4 (down + i * 4096) (down + i * 4096) 3 s).1

-- The address that is returned, and the space after; `pml4` is `pml4_address_virt_glob`.
unfoldable pub uacpi_kernel_map : (pml4 addr len : ℕ) → Space → ℕ × Space
unfolding num_pages map_pages
uacpi_kernel_map pml4 addr len s = (addr, map_pages (num_pages addr len) 0 pml4 (page_down addr) s)
