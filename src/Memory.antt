-- ===== src/Memory.antt =====
-- The byte loops of limine-c-template-x86-64/kernel/src/main.c: memcpy, memset, memmove, memcmp and
-- kstrlen, over a memory that maps an address to its byte. Addresses do not wrap around.
use willow_os.Prelude.{
  ℕ, zero, suc, ◌+◌, ◌-◌, ◌%◌, ◌^◌, Bool, true, false, Option, none, some, ◌==◌, ltb, if◌then◌else◌,
}
use willow_os.Prelude.Int.{ℤ, pos, negsuc}
pub mod Copy
pub mod Disjoint
pub mod Scan

abbrev pub Memory : Type 0
Memory = ℕ → ℕ

abbrev pub store : Memory → ℕ → ℕ → Memory
store m a v x = if x == a then v else m x

-- The loop that counts up from `i`, with the rounds left.
unfoldable pub copy_up : (rounds i dest src : ℕ) → Memory → Memory
copy_up zero i dest src m = m
copy_up (suc k) i dest src m = copy_up k (i + 1) dest src (store m (dest + i) (m (src + i)))

-- The loop that counts down to 0.
unfoldable pub copy_down : (rounds dest src : ℕ) → Memory → Memory
copy_down zero dest src m = m
copy_down (suc k) dest src m = copy_down k dest src (store m (dest + k) (m (src + k)))

unfoldable pub memcpy : (dest src n : ℕ) → Memory → Memory
unfolding copy_up
memcpy dest src n m = copy_up n 0 dest src m

unfoldable pub memmove : (dest src n : ℕ) → Memory → Memory
unfolding copy_up copy_down
memmove dest src n m =
    if ltb dest src
    then copy_up n 0 dest src m
    else (if ltb src dest then copy_down n dest src m else m)

unfoldable pub fill_up : (rounds i s c : ℕ) → Memory → Memory
fill_up zero i s c m = m
fill_up (suc k) i s c m = fill_up k (i + 1) s c (store m (s + i) (c % 2 ^ 8))

unfoldable pub memset : (s c n : ℕ) → Memory → Memory
unfolding fill_up
memset s c n m = fill_up n 0 s c m

unfoldable pub memcmp_loop : (rounds i s1 s2 : ℕ) → Memory → ℤ
memcmp_loop zero i s1 s2 m = pos 0
memcmp_loop (suc k) i s1 s2 m =
    let rest = memcmp_loop k (i + 1) s1 s2 m in
    if m (s1 + i) == m (s2 + i)
    then rest
    else (if ltb (m (s1 + i)) (m (s2 + i)) then negsuc 0 else pos 1)

unfoldable pub memcmp : (s1 s2 n : ℕ) → Memory → ℤ
unfolding memcmp_loop
memcmp s1 s2 n m = memcmp_loop n 0 s1 s2 m

-- The loop of `kstrlen`; fuel bounds the search for the terminator, and `none` means that it ran
-- out.
unfoldable pub kstrlen_loop : (fuel s msg : ℕ) → Memory → Option ℕ
kstrlen_loop zero s msg m = none
kstrlen_loop (suc f) s msg m =
    let rest = kstrlen_loop f (s + 1) msg m in if m (msg + s) == 0 then some s else rest

unfoldable pub kstrlen : (fuel msg : ℕ) → Memory → Option ℕ
unfolding kstrlen_loop
kstrlen fuel msg m = if msg == 0 then some 0 else kstrlen_loop fuel 0 msg m
