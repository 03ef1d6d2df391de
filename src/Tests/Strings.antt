-- ===== src/Tests/Strings.antt =====
-- `uint64_to_string` at a value, and `tar_lookup` at an archive.
use willow_os.Prelude.{
  ℕ, zero, suc, ◌-◌, ◌≡◌, some, List, [], ◌∷◌, ◌==◌, ◌||◌, ◌&&◌, leb, ltb, if◌then◌else◌, arith,
}
use willow_os.Memory.{Memory}
use willow_os.Strings.{uint64_to_string}
use willow_os.Strings.Digits.{Text, uint64_to_string-Text}

abbrev blank : Memory
blank a = 0

uint64_to_string-Text_example :
    (length : ℕ) × (m' : Memory) × (uint64_to_string 21 2048 4096 blank ≡ some m')
    × Text 2048 4096 length blank m'
uint64_to_string-Text_example = uint64_to_string-Text 2048 4096 blank (omega arith)

-- The byte of a list at an offset, 0 behind its end.
abbrev byte_at : List ℕ → ℕ → ℕ
byte_at [] i = 0
byte_at (b ∷ bytes) zero = b
byte_at (b ∷ bytes) (suc i) = byte_at bytes i

-- "ustar" at 200, the name "a" at 100, and an archive of one file "a" of one byte at 4096.
abbrev archive : Memory
archive x =
    if x == 100 || x == 4096
    then 97
    else if leb 200 x && ltb x 205
    then byte_at (117 ∷ 115 ∷ 116 ∷ 97 ∷ 114 ∷ []) (x - 200)
    else if leb 4353 x && ltb x 4358
    then byte_at (117 ∷ 115 ∷ 116 ∷ 97 ∷ 114 ∷ []) (x - 4353)
    else if leb 4220 x && ltb x 4230
    then 48
    else if x == 4230
    then 49
    else 0
