-- ===== src/Tests/Memory.antt =====
-- The byte loops of main.c at a memory.
use willow_os.Prelude.{ℕ, ◌+◌, ◌≡◌, ◌≢◌, ◌<◌, arith, ltb, if◌then◌else◌}
use willow_os.Memory.{Memory, memmove}
use willow_os.Memory.Copy.{copied, memmove-copied}

-- The byte at an address is the address, up to 9.
abbrev counted : Memory
counted a = if ltb a 10 then a else 0

memmove-copied_example : memmove 3 1 4 counted 4 ≡ copied 3 1 4 counted 4
memmove-copied_example = memmove-copied 3 1 4 counted 4

not_zero_before : (j : ℕ) → j < 7 → counted (3 + j) ≢ 0
not_zero_before j h e = ground arith
