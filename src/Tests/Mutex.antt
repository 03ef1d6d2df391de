-- ===== src/Tests/Mutex.antt =====
-- Two threads and a mutex that one of them holds.
use willow_os.Prelude.{ℕ, zero, suc, ◌≡◌, refl, true, arith}
use willow_os.Mutex.{Lock, Place, outside, inside, Steps}
use willow_os.Mutex.Exclusion.{mutex-both_inside}

abbrev places : ℕ → Place
places zero = inside
places (suc n) = outside

abbrev held : Lock
held = record { locked = true; places = places }

mutex-both_inside_example :
    (s' : Lock) × Steps held s' × (s'.places 1 ≡ inside) × (s'.places 0 ≡ inside)
mutex-both_inside_example = mutex-both_inside held 0 1 refl refl (λ h. omega arith) refl
