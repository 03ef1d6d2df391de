-- ===== src/Strings/Digits.antt =====
-- The text that `uint64_to_string` stores.
use native.Mathlib.Nat.{add-zero}
use willow_os.Prelude.{
  ℕ, zero, suc, ◌+◌, ◌-◌, ◌*◌, ◌/◌, ◌%◌, ◌^◌, ◌≤◌, ◌<◌, ◌≡◌, ◌≢◌, refl, sym, Bool, true, false,
  some, ◌==◌, if◌then◌else◌, arith, ap, ◌∙◌,
}
use willow_os.Memory.{Memory, store}
use willow_os.Strings.{digit_loop, reverse_loop, after_digits, uint64_to_string}
use willow_os.Strings.Reverse.{reversed, reverse_loop-Reversed}

-- The decimal number that the `length` bytes at an address stand for.
abbrev pub value_of : (at length : ℕ) → Memory → ℕ
value_of at zero m = 0
value_of at (suc k) m = value_of at k m * 10 + (m (at + k) - 48)

-- The same with the lowest digit first.
abbrev value_low : (at length : ℕ) → Memory → ℕ
value_low at zero m = 0
value_low at (suc k) m = (m at - 48) + 10 * value_low (at + 1) k m

-- A row of the characters '0' to '9'.
abbrev pub Digits : (at length : ℕ) → Memory → Type 0
Digits at length m = (i : ℕ) → i < length → (48 ≤ m (at + i)) × (m (at + i) ≤ 57)

-- `k` divisions by ten bring the value to 0.
abbrev Fits : (k value : ℕ) → Type 0
Fits zero value = value ≡ 0
Fits (suc k) value = Fits k (value / 10)

-- The digits of a value lie behind `ptr`, lowest first, and the bytes in front of it are as before.
record Stored (value ptr length : ℕ) (m m' : Memory) : Type 0 where
  denotes : value_low ptr length m' ≡ value
  digits : Digits ptr length m'
  before : (a : ℕ) → a < ptr → m' a ≡ m a

digit_loop-Stored :
    (k value ptr : ℕ) (m : Memory)
    → Fits k value
    → (length : ℕ) × (m' : Memory) × (digit_loop (suc k) value ptr m ≡ some (ptr + length, m'))
      × (length ≤ k)
      × (value ≢ 0 → length ≢ 0)
      × Stored value ptr length m m'
unfolding digit_loop
digit_loop-Stored zero value ptr m fits = (
  0,
  m,
  rw fits (ap (λ p. some (p, m)) (sym (add-zero ptr))),
  omega arith,
  λ h. absurd (h fits),
  record { denotes = sym fits; digits = λ i h. absurd (omega arith); before = λ a h. refl },
)
digit_loop-Stored (suc k) value ptr m fits =
    split (value == 0) refl
      (digit_loop-Stored k (value / 10) (ptr + 1) (store m ptr (48 + value % 10)) fits)
  where
    digit : Memory
    digit = store m ptr (48 + value % 10)

    split :
        (b : Bool)
        → (value == 0) ≡ b
        → ((length : ℕ) × (m' : Memory) × (digit_loop (suc k) (value / 10) (ptr + 1) digit
              ≡ some (ptr + 1 + length, m'))
            × (length ≤ k)
            × (value / 10 ≢ 0 → length ≢ 0)
            × Stored (value / 10) (ptr + 1) length digit m')
        → (length : ℕ) × (m' : Memory) × ((if b
              then some (ptr, m)
              else digit_loop (suc k) (value / 10) (ptr + 1) digit)
            ≡ some (ptr + length, m'))
          × (length ≤ suc k)
          × (value ≢ 0 → length ≢ 0)
          × Stored value ptr length m m'
    split true e ih = (
      0,
      m,
      ap (λ p. some (p, m)) (sym (add-zero ptr)),
      omega arith,
      λ h. absurd (h (ground arith)),
      record { denotes = ground arith; digits = λ i h. absurd (omega arith); before = λ a h. refl },
    )
    split false e (length, m', eq, few, some_digits, stored) = (
      suc length,
      m',
      eq ∙ ap (λ p. some (p, m')) (omega arith),
      omega (arith, few),
      λ h n. omega arith,
      record {
        denotes = omega (arith, first, stored.denotes);
        digits = all;
        before = λ a h. stored.before a (omega arith) ∙ untouched a h;
      },
    )
      where
        first : m' ptr ≡ 48 + value % 10
        first = stored.before ptr (omega arith) ∙ ground arith

        untouched : (a : ℕ) → a < ptr → digit a ≡ m a
        untouched a h = ground arith

        all : Digits ptr (suc length) m'
        all zero h = rw (add-zero ptr) (omega (arith, first))
        all (suc i) h = rw next (stored.digits i (omega arith))
          where
            next : ptr + suc i ≡ ptr + 1 + i
            next = omega arith

-- A row read backwards is the number with the lowest digit first.
value_of-mirrored :
    (length at ptr : ℕ) (m m' : Memory)
    → ((i : ℕ) → i < length → m (at + i) ≡ m' (ptr + (length - 1 - i)))
    → value_of at length m ≡ value_low ptr length m'
value_of-mirrored zero at ptr m m' mirrored = refl
value_of-mirrored (suc k) at ptr m m' mirrored =
    omega (arith, value_of-mirrored k at (ptr + 1) m m' shifted, last)
  where
    shifted : (i : ℕ) → i < k → m (at + i) ≡ m' (ptr + 1 + (k - 1 - i))
    shifted i h = mirrored i (omega arith) ∙ ap m' (omega arith)

    last : m (at + k) ≡ m' ptr
    last = mirrored k (omega arith) ∙ ap m' (omega arith)

-- Twenty digits are enough for 64 bits.
Fits-word : (value : ℕ) → value < 2 ^ 64 → Fits 20 value
Fits-word value h = omega arith

-- What the text of a value is: one to twenty digits that denote it, a terminating 0, and nothing
-- changed in front of it.
pub record Text (value buffer length : ℕ) (m m' : Memory) : Type 0 where
  pub some_digits : 1 ≤ length
  pub few_digits : length ≤ 20
  pub digits : Digits buffer length m'
  pub denotes : value_of buffer length m' ≡ value
  pub terminated : m' (buffer + length) ≡ 0
  pub before : (a : ℕ) → a < buffer → m' a ≡ m a

Text-reversed :
    (value buffer length : ℕ) (m m1 : Memory)
    → 1 ≤ length
    → length ≤ 20
    → Stored value buffer length m m1
    → (m' : Memory) × (after_digits 21 buffer (some (buffer + length, m1)) ≡ some m')
      × Text value buffer length m m'
Text-reversed value buffer length m m1 some_digits few_digits stored =
    finish (reverse_loop-Reversed 21 buffer (buffer + length - 1) ended (omega arith) (omega arith))
  where
    ended : Memory
    ended = store m1 (buffer + length) 0

    finish :
        (m' : Memory) × (reverse_loop 21 buffer (buffer + length - 1) ended ≡ some m')
          × ((a : ℕ) → m' a ≡ reversed buffer (buffer + length - 1) ended a)
        → (m' : Memory) × (after_digits 21 buffer (some (buffer + length, m1)) ≡ some m')
          × Text value buffer length m m'
    finish (m', eq, at) = (
      m',
      eq,
      record {
        some_digits = some_digits;
        few_digits = few_digits;
        digits = λ i h. rw (mirrored i h) (stored.digits (length - 1 - i) (omega arith));
        denotes = value_of-mirrored length buffer buffer m' m1 mirrored ∙ stored.denotes;
        terminated = at (buffer + length) ∙ ground arith;
        before = λ a h. at a ∙ unchanged a h ∙ stored.before a h;
      },
    )
      where
        unchanged : (a : ℕ) → a < buffer → reversed buffer (buffer + length - 1) ended a ≡ m1 a
        unchanged a h = ground arith

        mirrored : (i : ℕ) → i < length → m' (buffer + i) ≡ m1 (buffer + (length - 1 - i))
        mirrored i h = at (buffer + i) ∙ ground (arith, place)
          where
            place :
                m1 (buffer + (buffer + length - 1) - (buffer + i)) ≡ m1 (buffer + (length - 1 - i))
            place = ap m1 (omega arith)

-- For a 64-bit value, `uint64_to_string` ends within 21 rounds of each loop, and the buffer holds the
-- value's decimal digits, highest first, at most twenty of them, and a terminating 0.
pub uint64_to_string-Text :
    (value buffer : ℕ) (m : Memory)
    → value < 2 ^ 64
    → (length : ℕ) × (m' : Memory) × (uint64_to_string 21 value buffer m ≡ some m')
      × Text value buffer length m m'
unfolding uint64_to_string
uint64_to_string-Text value buffer m word =
    split (value == 0) refl (digit_loop-Stored 20 value buffer m (Fits-word value word))
  where
    split :
        (b : Bool)
        → (value == 0) ≡ b
        → ((length : ℕ) × (m1 : Memory) × (digit_loop 21 value buffer m
              ≡ some (buffer + length, m1))
            × (length ≤ 20)
            × (value ≢ 0 → length ≢ 0)
            × Stored value buffer length m m1)
        → (length : ℕ) × (m' : Memory) × (after_digits 21 buffer
              (if b then some (buffer + 1, store m buffer 48) else digit_loop 21 value buffer m)
            ≡ some m')
          × Text value buffer length m m'
    split true e ih =
        let (m', eq', text) =
          Text-reversed value buffer 1 m (store m buffer 48) (omega arith) (omega arith)
            zero_digit in
        (1, m', eq', text)
      where
        zero_digit : Stored value buffer 1 m (store m buffer 48)
        zero_digit = record {
          denotes = ground arith;
          digits = λ i h. (ground arith, ground arith);
          before = λ a h. ground arith;
        }
    split false e (length, m1, eq, few, some_digits, stored) =
        let (m', eq', text) = Text-reversed value buffer length m m1 positive few stored in
        rw eq (length, m', eq', text)
      where
        nonzero : value ≢ 0
        nonzero = ground arith

        positive : 1 ≤ length
        positive = let n = some_digits nonzero in ground arith
