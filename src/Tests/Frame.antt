-- ===== src/Tests/Frame.antt =====
-- Small layouts of physical memory, and the frame allocator of paging.c at them.
use willow_os.Prelude.{refl, [], ◌∷◌, arith, if◌then◌else◌, ◌==◌}
use willow_os.Frame.{Region, Machine, free_frame}
use willow_os.Frame.Freeing.{free_frame-Frees, Frees}

abbrev low_region : Region
low_region = record {
  base = 0x1000;
  length = 0x2000;
  type = 0;
  frame_bitmap = λ i. if i == 1 then 1 else 0;
}

abbrev high_region : Region
high_region = record { base = 0x10000; length = 0x4000; type = 0; frame_bitmap = λ i. 0 }

abbrev next_region : Region
next_region = record { base = 0x3000; length = 0x4000; type = 0; frame_bitmap = λ i. 1 }

abbrev machine : Machine
machine = record {
  regions = low_region ∷ high_region ∷ [];
  last_alloced_frame = 0;
  hhdm_offset = 0xffff800000000000;
  words = λ a. 7;
}

free_frame-Frees_example : Frees 0x2000 machine.regions (free_frame 2 0x2000 machine.regions)
free_frame-Frees_example =
    free_frame-Frees 2 0 0x2000 machine.regions (omega arith) (omega arith)
      (omega arith, (omega arith, tt)) (refl, (refl, tt)) refl
