-- ===== src/Tests/Paging.antt =====
-- A machine with empty tables, and the page tables of paging.c at it.
use willow_os.Prelude.{ℕ, ◌+◌, ◌%◌, ◌≡◌, refl, true, [], ◌∷◌, arith, replicate}
use willow_os.Frame.{Region, Machine, alloc_frame, alloc_regions, scan_region}
use willow_os.Paging.{Space, Mappings, unused, map_page, virt_to_phys, walk, descend}
use willow_os.Paging.Descent.{IsSound}
use willow_os.Paging.Roundtrip.{Apart, map_page-virt_to_phys}

abbrev pub region : Region
region = record { base = 0x10000; length = 0x8000; type = 0; frame_bitmap = λ i. 0 }

abbrev pub machine : Machine
machine = record {
  regions = region ∷ [];
  last_alloced_frame = 0;
  hhdm_offset = 0xffff800000000000;
  words = λ a. 0;
}

abbrev pub table : Mappings
table = record {
  mapped_virt_addresses_array = replicate 8 unused;
  num_mappings = 0;
  max_mappings = 8;
}

abbrev pub space : Space
space = record { machine = machine; scheduling_started = true; mappings = table }

abbrev pub root : ℕ
root = 0xffff800000005000

machine-IsSound : IsSound machine
machine-IsSound = record { layout = (refl, omega arith, tt); window = omega arith }

tables-Apart :
    Apart root
      (walk root 0x400123 7 machine).pdpt
      (walk root 0x400123 7 machine).pd
      (walk root 0x400123 7 machine).pt
unfolding walk descend alloc_frame alloc_regions scan_region
tables-Apart = record {
  pml4_pdpt = λ h. omega arith;
  pml4_pd = λ h. omega arith;
  pml4_pt = λ h. omega arith;
  pdpt_pd = λ h. omega arith;
  pdpt_pt = λ h. omega arith;
  pd_pt = λ h. omega arith;
}

map_page-virt_to_phys_example :
    virt_to_phys 0x400123 root (map_page root 0x200000 0x400123 7 space).1.machine
    ≡ 0x200000 + 0x400123 % 4096
map_page-virt_to_phys_example =
    map_page-virt_to_phys root 0x200000 0x400123 7 space machine-IsSound refl refl refl
      (omega arith) refl tables-Apart

abbrev one_used : Mappings
one_used = record {
  mapped_virt_addresses_array =
      record { virt_address = 0x5000; flag = 0; used = true } ∷ unused ∷ [];
  num_mappings = 1;
  max_mappings = 2;
}
