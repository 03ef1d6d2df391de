-- ===== src/Loader/Images.antt =====
-- All segments of a program, as load_elf of limine-c-template-x86-64/kernel/src/loader.c loads them.
use willow_os.Prelude.{ℕ, ◌<◌, ◌≡◌}
use willow_os.Memory.{Memory}
use willow_os.Loader.{Phdr, e_phnum, pt_load}
use willow_os.Loader.Segments.{Loaded}
use willow_os.Loader.Executable.{segment, IsExecutable, Kept}

module _ (data_address len : ℕ) (m : Memory) (ok : IsExecutable data_address len m) where
  abbrev seg : ℕ → Phdr
  seg i = segment data_address i m

  -- After `i` rounds: the file is untouched, and the segments met so far are loaded.
  record Progress (i : ℕ) (m' : Memory) : Type 0 where
    kept : Kept data_address len m m'
    loaded :
        (k : ℕ)
        → k < i
        → k < e_phnum data_address m
        → (seg k).p_type ≡ pt_load
        → Loaded data_address (seg k) m m'
