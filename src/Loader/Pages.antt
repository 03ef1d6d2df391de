-- ===== src/Loader/Pages.antt =====
-- The pages that unload_elf of limine-c-template-x86-64/kernel/src/loader.c frees, against those that
-- map_range of paging.c maps for the same segment.
use willow_os.Prelude.{ℕ, ◌+◌, ◌%◌, ◌^◌, ◌≤◌, ◌<◌, ◌≡◌, ◌≢◌, ◌⊎◌, arith}
use willow_os.Paging.{pages_of}
use willow_os.Loader.{Phdr, unload_pages}

-- The bytes from the start of the first page to the end of the segment.
abbrev pub total : Phdr → ℕ
total p = p.p_vaddr % 4096 + p.p_memsz

-- The segments of which unload_elf takes back what was mapped: inside one page, or of whole pages from
-- a page's start, or longer than a page, of no whole pages and with an end inside a page.
abbrev pub IsBalanced : Phdr → Type 0
IsBalanced p =
    ((p.p_memsz < 4096) × (total p ≤ 4096))
    ⊎ ((p.p_memsz % 4096 ≡ 0) × (p.p_vaddr % 4096 ≡ 0))
    ⊎ ((4096 < p.p_memsz) × (p.p_memsz % 4096 ≢ 0) × (total p % 4096 ≢ 0))

-- Of these the last page stays mapped: a short segment across a page's end, or one of whole pages that
-- does not start with a page.
abbrev pub IsLeaking : Phdr → Type 0
IsLeaking p =
    ((p.p_memsz < 4096) × (4096 < total p))
    ⊎ ((4096 ≤ p.p_memsz) × (p.p_memsz % 4096 ≡ 0) × (p.p_vaddr % 4096 ≢ 0))

-- And of these one page more is freed than was mapped: longer than a page, of no whole pages, with its
-- end at a page's end.
abbrev pub IsOverrun : Phdr → Type 0
IsOverrun p = (4096 < p.p_memsz) × (p.p_memsz % 4096 ≢ 0) × (total p % 4096 ≡ 0)

-- For a segment that is not empty and ends below 2^64, unload_elf frees as many pages as map_range has
-- mapped, one fewer, or one more, by the size of the segment and its place in its pages.
pub unload_pages-pages_of :
    (p : Phdr)
    → p.p_memsz ≢ 0
    → p.p_vaddr + p.p_memsz < 2 ^ 64
    → ((unload_pages p ≡ pages_of p.p_vaddr p.p_memsz) × IsBalanced p)
      ⊎ ((unload_pages p + 1 ≡ pages_of p.p_vaddr p.p_memsz) × IsLeaking p)
      ⊎ ((unload_pages p ≡ pages_of p.p_vaddr p.p_memsz + 1) × IsOverrun p)
unfolding unload_pages pages_of
unload_pages-pages_of p some_bytes below = ground arith
