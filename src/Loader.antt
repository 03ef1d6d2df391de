-- ===== src/Loader.antt =====
-- Programs in the ELF format: load_elf and unload_elf of
-- limine-c-template-x86-64/kernel/src/loader.c. The memory is that of the address space `cr3`, in which
-- the file and the segments stand; the frames of map_range are new, so that no byte of the memory is
-- one of its page tables. Addresses of bytes do not wrap around.
use willow_os.Prelude.{
  ℕ, zero, suc, ◌+◌, ◌-◌, ◌*◌, ◌/◌, ◌%◌, ◌^◌, true, false, Option, none, some, ◌==◌, ltb, ◌&&◌, not,
  if◌then◌else◌, ◌>>=◌,
}
use willow_os.Memory.{Memory, memcpy, memset}
use willow_os.Frame.{Release, freed, asserted, spinning, free_frame}
use willow_os.Paging.{Space, map_range, unmap_page, virt_to_phys_page}
pub mod Segments
pub mod Executable
pub mod Images
pub mod Pages

-- `n` bytes from `a` on as a number, the lowest byte first.
unfoldable pub word : (n : ℕ) → Memory → (a : ℕ) → ℕ
word zero m a = 0
word (suc n) m a = m a + 256 * word n m (a + 1)

-- The members of `Elf64_Phdr` that the loader reads.
pub record Phdr : Type 0 where
  pub p_type : ℕ
  pub p_offset : ℕ
  pub p_vaddr : ℕ
  pub p_filesz : ℕ
  pub p_memsz : ℕ

unfoldable pub phdr_at : (a : ℕ) → Memory → Phdr
unfolding word
phdr_at a m = record {
  p_type = word 4 m a;
  p_offset = word 8 m (a + 8);
  p_vaddr = word 8 m (a + 16);
  p_filesz = word 8 m (a + 32);
  p_memsz = word 8 m (a + 40);
}

-- Members of the `Elf64_Ehdr` at `data_address`.
abbrev pub e_entry : (data_address : ℕ) → Memory → ℕ
e_entry data_address m = word 8 m (data_address + 24)

abbrev pub e_phoff : (data_address : ℕ) → Memory → ℕ
e_phoff data_address m = word 8 m (data_address + 32)

abbrev pub e_phentsize : (data_address : ℕ) → Memory → ℕ
e_phentsize data_address m = word 2 m (data_address + 54)

abbrev pub e_phnum : (data_address : ℕ) → Memory → ℕ
e_phnum data_address m = word 2 m (data_address + 56)

-- Where program header `i` stands.
unfoldable pub phdr_address : (data_address i : ℕ) → Memory → ℕ
phdr_address data_address i m =
    (e_phoff data_address m + i * e_phentsize data_address m + data_address) % 2 ^ 64

abbrev pub pt_load : ℕ
pt_load = 1

-- `p_vaddr & ~0xfff`.
abbrev pub segment_page : Phdr → ℕ
segment_page p = p.p_vaddr / 4096 * 4096

-- The bytes of a segment, once its pages are mapped.
unfoldable pub fill_segment : (data_address : ℕ) → Phdr → Memory → Memory
fill_segment data_address p m =
    let cleared = memset (segment_page p) 0 ((p.p_memsz + p.p_vaddr % 4096) % 2 ^ 64) m in
    let copied = memcpy p.p_vaddr (data_address + p.p_offset) p.p_filesz cleared in
    if ltb p.p_filesz p.p_memsz
    then memset (p.p_vaddr + p.p_filesz) 0 (p.p_memsz - p.p_filesz) copied
    else copied

unfoldable pub load_segment : (data_address cr3 : ℕ) → Phdr → Space → Memory → Space × Memory
unfolding fill_segment
load_segment data_address cr3 p s m =
    if p.p_type == pt_load
    then ((map_range cr3 p.p_vaddr 7 p.p_memsz 7 s).1, fill_segment data_address p m)
    else (s, m)

-- The loop over the program headers, which reads the headers anew in each round.
unfoldable pub load_loop : (rounds i data_address cr3 : ℕ) → Space → Memory → Space × Memory
load_loop zero i data_address cr3 s m = (s, m)
load_loop (suc k) i data_address cr3 s m = elim (ltb i (e_phnum data_address m)) [
  | true ↦
      (let r = load_segment data_address cr3 (phdr_at (phdr_address data_address i m) m) s m in
        load_loop k (i + 1) data_address cr3 r.0 r.1)
  | false ↦ (s, m)
]

-- The entry point, and what the loop leaves; `e_phnum` is a 16-bit number, which bounds the rounds.
unfoldable pub load_elf : (data_address cr3 : ℕ) → Space → Memory → ℕ × Space × Memory
load_elf data_address cr3 s m =
    let r = load_loop 65536 0 data_address cr3 s m in (e_entry data_address r.1, r.0, r.1)

-- The number of pages that unload_elf frees and unmaps for a segment, by its three branches.
unfoldable pub unload_pages : Phdr → ℕ
unload_pages p =
    let total = (p.p_vaddr % 4096 + p.p_memsz) % 2 ^ 64 in
    if ltb p.p_memsz 4096
    then 1
    else if p.p_memsz % 4096 == 0
    then 1 + (total / 4096 + 2 ^ 64 - 1) % 2 ^ 64
    else if not (p.p_memsz % 4096 == 0) && ltb 4096 p.p_memsz
    then 1 + total / 4096
    else 0

abbrev pub released : (virt_address cr3 : ℕ) → Release → Space → Option Space
released virt_address cr3 (freed regions) s =
    some (
      unmap_page cr3 virt_address (record s { machine = record (s.machine) { regions = regions } }))
released virt_address cr3 asserted s = none
released virt_address cr3 spinning s = none

-- One page: its frame is freed, and then the page is unmapped. `none` where free_frame does not return.
unfoldable pub unload_page : (fuel virt_address cr3 : ℕ) → Space → Option Space
unload_page fuel virt_address cr3 s =
    released virt_address cr3
      (free_frame fuel (virt_to_phys_page virt_address cr3 s.machine) s.machine.regions) s

-- `rounds` pages from page `j` of the segment on.
unfoldable pub unload_rounds : (rounds j fuel virt_address cr3 : ℕ) → Space → Option Space
unload_rounds zero j fuel virt_address cr3 s = some s
unload_rounds (suc k) j fuel virt_address cr3 s =
    unload_page fuel ((virt_address + 4096 * j) % 2 ^ 64) cr3 s
    >>= unload_rounds k (j + 1) fuel virt_address cr3

unfoldable pub unload_segment : (fuel cr3 : ℕ) → Phdr → Space → Option Space
unfolding unload_pages unload_rounds
unload_segment fuel cr3 p s =
    if p.p_type == pt_load then unload_rounds (unload_pages p) 0 fuel p.p_vaddr cr3 s else some s

-- The loop over the program headers, none of which stands in a page that is unmapped.
unfoldable pub unload_loop : (rounds i fuel data_address cr3 : ℕ) → Memory → Space → Option Space
unload_loop zero i fuel data_address cr3 m s = some s
unload_loop (suc k) i fuel data_address cr3 m s = elim (ltb i (e_phnum data_address m)) [
  | true ↦
      (unload_segment fuel cr3 (phdr_at (phdr_address data_address i m) m) s
        >>= unload_loop k (i + 1) fuel data_address cr3 m)
  | false ↦ some s
]

unfoldable pub unload_elf : (fuel data_address cr3 : ℕ) → Memory → Space → Option Space
unload_elf fuel data_address cr3 m s = unload_loop 65536 0 fuel data_address cr3 m s
