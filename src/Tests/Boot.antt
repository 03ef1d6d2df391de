-- ===== src/Tests/Boot.antt =====
-- What the kernel sets up, at a small map of memory.
use willow_os.Prelude.{ℕ, ◌≡◌, some, List, [], ◌∷◌, false, arith}
use willow_os.Frame.{Region}
use willow_os.Frame.Free.{is_free}
use willow_os.Paging.{Space}
use willow_os.Boot.{MemmapEntry, init_memmaps, create_descriptor, create_tss_descriptor}
use willow_os.Boot.Memmaps.{is_usable, init_memmaps-free}

abbrev usable : MemmapEntry
usable = record { base = 0x100000; length = 0x300000; type = 0 }

abbrev reserved : MemmapEntry
reserved = record { base = 0x1000; length = 0x2000; type = 1 }

init_memmaps-free_example :
    (rs : List Region) × (init_memmaps (λ i. 1) (reserved ∷ usable ∷ []) ≡ some rs)
    × ((a : ℕ) → is_free rs a ≡ is_usable (reserved ∷ usable ∷ []) a)
init_memmaps-free_example =
    init_memmaps-free (λ i. 1) (reserved ∷ usable ∷ []) (omega arith) (omega arith)
      (omega arith, (omega arith, tt))

abbrev space : Space
space = record {
  machine = record {
    regions = record { base = 0x100000; length = 0x300000; type = 0; frame_bitmap = λ i. 0 } ∷ [];
    last_alloced_frame = 0;
    hhdm_offset = 0xffff800000000000;
    words = λ a. 0;
  };
  scheduling_started = false;
  mappings = record { mapped_virt_addresses_array = []; num_mappings = 0; max_mappings = 0 };
}

abbrev code : ℕ
code = create_descriptor 0x12345678 0xabcde 0x9a 0xa

abbrev task : ℕ × ℕ
task = create_tss_descriptor 0xffff812345678abc 0x67
