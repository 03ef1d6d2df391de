-- ===== src/Strings.antt =====
-- Numbers and text: uint64_to_string, oct2bin and tar_lookup of
-- limine-c-template-x86-64/kernel/src/kutils.c, over a memory of bytes.
use willow_os.Prelude.{
  ℕ, zero, suc, ◌+◌, ◌-◌, ◌*◌, ◌/◌, ◌%◌, ◌^◌, Bool, true, false, ◌&&◌, not, Option, none, some,
  List, [], ◌∷◌, ◌++◌, ◌==◌, ltb, if◌then◌else◌, ◌>>=◌,
}
use willow_os.Prelude.Int.{ℤ, pos, negsuc}
use willow_os.Memory.{Memory, store, memcmp, kstrlen}
pub mod Reverse
pub mod Digits
pub mod Tar

-- The loop that stores the digits of a value, lowest first: the pointer and the memory at its end.
-- `none` is a loop that is still running after the rounds.
unfoldable pub digit_loop : (rounds value ptr : ℕ) → Memory → Option (ℕ × Memory)
digit_loop zero value ptr m = none
digit_loop (suc k) value ptr m =
    let later = digit_loop k (value / 10) (ptr + 1) (store m ptr (48 + value % 10)) in
    if value == 0 then some (ptr, m) else later

-- The loop that swaps `start` and `end` towards each other.
unfoldable pub reverse_loop : (rounds start end : ℕ) → Memory → Option Memory
reverse_loop zero start end m = none
reverse_loop (suc k) start end m =
    let later =
      reverse_loop k (start + 1) (end - 1) (store (store m start (m end)) end (m start)) in
    if ltb start end then later else some m

abbrev pub after_digits : (rounds buffer : ℕ) → Option (ℕ × Memory) → Option Memory
after_digits rounds buffer none = none
after_digits rounds buffer (some (ptr, m)) = reverse_loop rounds buffer (ptr - 1) (store m ptr 0)

-- `uint64_to_string`, with `rounds` for each of the two loops.
unfoldable pub uint64_to_string : (rounds value buffer : ℕ) → Memory → Option Memory
uint64_to_string rounds value buffer m =
    after_digits rounds buffer (
      if value == 0 then some (buffer + 1, store m buffer 48) else digit_loop rounds value buffer m)

-- `oct2bin` of digits '0' to '7': the value so far is `n`.
unfoldable pub oct2bin_loop : (size n c : ℕ) → Memory → ℕ
oct2bin_loop zero n c m = n
oct2bin_loop (suc k) n c m = oct2bin_loop k (n * 8 + (m c - 48)) (c + 1) m

unfoldable pub oct2bin : (str size : ℕ) → Memory → ℕ
oct2bin str size m = oct2bin_loop size 0 str m

-- `!memcmp(…)`.
abbrev pub is_same : ℤ → Bool
is_same (pos zero) = true
is_same (pos (suc n)) = false
is_same (negsuc n) = false

-- The file size that a header states.
abbrev pub filesize : (header : ℕ) → Memory → ℕ
filesize header m = oct2bin (header + 0x7c) 11 m

abbrev pub next_header : (header : ℕ) → Memory → ℕ
next_header header m = header + ((filesize header m + 511) / 512 + 1) * 512

-- The loop of `tar_lookup`, `ustar` being the address of that word and `length` that of the name: the
-- file's size and where its data is stored, 0 and nowhere if there is no such file.
unfoldable pub tar_loop : (rounds ustar ptr filename length : ℕ) → Memory → Option (ℕ × Option ℕ)
tar_loop zero ustar ptr filename length m = none
tar_loop (suc k) ustar ptr filename length m =
    let later = tar_loop k ustar (next_header ptr m) filename length m in
    if is_same (memcmp (ptr + 257) ustar 5 m)
    then (if is_same (memcmp ptr filename (length + 1) m)
        then some (filesize ptr m, some (ptr + 512))
        else later)
    else some (0, none)

-- `tar_lookup`, with rounds for its loop and for `kstrlen`.
unfoldable pub tar_lookup : (rounds ustar archive filename : ℕ) → Memory → Option (ℕ × Option ℕ)
tar_lookup rounds ustar archive filename m =
    kstrlen rounds filename m >>= (λ length. tar_loop rounds ustar archive filename length m)
