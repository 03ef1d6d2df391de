-- ===== src/Tests/Loader.antt =====
-- A small executable, and the theorems on the loader of loader.c at it.
use willow_os.Prelude.{
  ℕ, zero, suc, ◌+◌, ◌*◌, ◌/◌, ◌%◌, ◌≡◌, ◌≢◌, ◌≤◌, ◌<◌, ◌⊎◌, inr, refl, ◌==◌, if◌then◌else◌, arith,
}
use willow_os.Memory.{Memory}
use willow_os.Memory.Disjoint.{Apart}
use willow_os.Paging.{pages_of}
use willow_os.Loader.{Phdr, word, phdr_at, e_phnum, phdr_address, pt_load, unload_pages}
use willow_os.Loader.Executable.{segment, IsExecutable}
use willow_os.Loader.Pages.{IsBalanced, IsLeaking, IsOverrun, unload_pages-pages_of}

-- The file stands at 4096 and has one segment, of 3 bytes in the file and 5 in memory, at 0x400010.
abbrev pub memory : Memory
memory a =
    if a == 4096 + 32
    then 64
    else if a == 4096 + 54
    then 56
    else if a == 4096 + 56
    then 1
    else if a == 4160
    then 1
    else if a == 4160 + 8
    then 120
    else if a == 4160 + 16
    then 16
    else if a == 4160 + 18
    then 64
    else if a == 4160 + 32
    then 3
    else if a == 4160 + 40
    then 5
    else 0

pub memory-bytes : (a : ℕ) → memory a < 256
memory-bytes a = ground arith

pub memory-IsExecutable : IsExecutable 4096 200 memory
unfolding word phdr_address phdr_at
memory-IsExecutable = record {
  header = omega arith;
  headers = headers;
  fits = fits;
  outside = outside;
  disjoint = disjoint;
}
  where
    headers :
        (i : ℕ)
        → i < e_phnum 4096 memory
        → (4096 ≤ phdr_address 4096 i memory) × (phdr_address 4096 i memory + 56 ≤ 4096 + 200)
    headers zero h = omega arith
    headers (suc i) h = absurd (omega arith)

    fits :
        (i : ℕ)
        → i < e_phnum 4096 memory
        → (segment 4096 i memory).p_type ≡ pt_load
        → ((segment 4096 i memory).p_filesz ≤ (segment 4096 i memory).p_memsz)
          × ((segment 4096 i memory).p_vaddr + (segment 4096 i memory).p_memsz
              < 18446744073709551616)
          × ((segment 4096 i memory).p_offset + (segment 4096 i memory).p_filesz ≤ 200)
    fits zero h load = omega arith
    fits (suc i) h load = absurd (omega arith)

    outside :
        (i : ℕ)
        → i < e_phnum 4096 memory
        → (segment 4096 i memory).p_type ≡ pt_load
        → Apart
            ((segment 4096 i memory).p_vaddr / 4096 * 4096)
            ((segment 4096 i memory).p_memsz + (segment 4096 i memory).p_vaddr % 4096)
            4096
            200
    outside zero h load = inr (omega arith)
    outside (suc i) h load = absurd (omega arith)

    disjoint :
        (i j : ℕ)
        → i < e_phnum 4096 memory
        → j < e_phnum 4096 memory
        → i ≢ j
        → (segment 4096 i memory).p_type ≡ pt_load
        → (segment 4096 j memory).p_type ≡ pt_load
        → Apart
            ((segment 4096 i memory).p_vaddr / 4096 * 4096)
            ((segment 4096 i memory).p_memsz + (segment 4096 i memory).p_vaddr % 4096)
            ((segment 4096 j memory).p_vaddr / 4096 * 4096)
            ((segment 4096 j memory).p_memsz + (segment 4096 j memory).p_vaddr % 4096)
    disjoint zero zero hi hj ne li lj = absurd (ne refl)
    disjoint zero (suc j) hi hj ne li lj = absurd (omega arith)
    disjoint (suc i) j hi hj ne li lj = absurd (omega arith)

-- 100 bytes across the end of a page: two pages are mapped and one is freed.
abbrev crossing : Phdr
crossing = record { p_type = 1; p_offset = 0; p_vaddr = 0x400fc0; p_filesz = 100; p_memsz = 100 }

unload_pages-pages_of_example :
    ((unload_pages crossing ≡ pages_of 0x400fc0 100) × IsBalanced crossing)
    ⊎ ((unload_pages crossing + 1 ≡ pages_of 0x400fc0 100) × IsLeaking crossing)
    ⊎ ((unload_pages crossing ≡ pages_of 0x400fc0 100 + 1) × IsOverrun crossing)
unload_pages-pages_of_example = unload_pages-pages_of crossing (λ e. omega arith) (omega arith)
