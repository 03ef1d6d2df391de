-- ===== src/Keyboard.antt =====
-- The keyboard: the maps of scan codes, is_lshift and print_kb of
-- limine-c-template-x86-64/kernel/src/kutils.c and ps2_keyboard_handler of idt.c. Characters are their
-- codes; what is printed is a list of them.
use willow_os.Prelude.{
  ℕ, zero, suc, Bool, true, false, List, [], ◌∷◌, ◌++◌, ◌==◌, ◌||◌, leb, if◌then◌else◌, get_or,
  drop, take, replicate,
}
pub mod History

unfoldable pub scanmap_set1 : List ℕ
scanmap_set1 =
    0
    ∷ 0
    ∷ 49
    ∷ 50
    ∷ 51
    ∷ 52
    ∷ 53
    ∷ 54
    ∷ 55
    ∷ 56
    ∷ 57
    ∷ 48
    ∷ 45
    ∷ 61
    ∷ 8
    ∷ 9
    ∷ 113
    ∷ 119
    ∷ 101
    ∷ 114
    ∷ 116
    ∷ 121
    ∷ 117
    ∷ 105
    ∷ 111
    ∷ 112
    ∷ 91
    ∷ 93
    ∷ 10
    ∷ 0
    ∷ 97
    ∷ 115
    ∷ 100
    ∷ 102
    ∷ 103
    ∷ 104
    ∷ 106
    ∷ 107
    ∷ 108
    ∷ 59
    ∷ 39
    ∷ 96
    ∷ 0
    ∷ 92
    ∷ 122
    ∷ 120
    ∷ 99
    ∷ 118
    ∷ 98
    ∷ 110
    ∷ 109
    ∷ 44
    ∷ 46
    ∷ 47
    ∷ 0
    ∷ 42
    ∷ 0
    ∷ 32
    ∷ replicate {A = ℕ} 70 0

unfoldable pub scanmap_set1_upper : List ℕ
scanmap_set1_upper =
    0
    ∷ 0
    ∷ 33
    ∷ 64
    ∷ 35
    ∷ 36
    ∷ 37
    ∷ 94
    ∷ 38
    ∷ 42
    ∷ 40
    ∷ 41
    ∷ 95
    ∷ 43
    ∷ 8
    ∷ 9
    ∷ 81
    ∷ 87
    ∷ 69
    ∷ 82
    ∷ 84
    ∷ 89
    ∷ 85
    ∷ 73
    ∷ 79
    ∷ 80
    ∷ 123
    ∷ 125
    ∷ 10
    ∷ 0
    ∷ 65
    ∷ 83
    ∷ 68
    ∷ 70
    ∷ 71
    ∷ 72
    ∷ 74
    ∷ 75
    ∷ 76
    ∷ 58
    ∷ 34
    ∷ 126
    ∷ 0
    ∷ 124
    ∷ 90
    ∷ 88
    ∷ 67
    ∷ 86
    ∷ 66
    ∷ 78
    ∷ 77
    ∷ 60
    ∷ 62
    ∷ 63
    ∷ 0
    ∷ 42
    ∷ 0
    ∷ 32
    ∷ replicate {A = ℕ} 70 0

-- The result and `lshift_status`.
unfoldable pub is_lshift : (scancode : ℕ) → (lshift_status : Bool) → Bool × Bool
is_lshift scancode lshift_status =
    if◌then◌else◌ {A = Bool × Bool} (scancode == 0xaa) (false, false)
      (if◌then◌else◌ {A = Bool × Bool} (scancode == 0x2a) (true, true) (false, lshift_status))

-- A backspace goes back, writes over the character and goes back again.
unfoldable pub print_char : ℕ → List ℕ
print_char c = if c == 8 then 8 ∷ 32 ∷ 8 ∷ [] else c ∷ []

unfoldable pub print_kb : (scancode : ℕ) → (lshift_status : Bool) → List ℕ
unfolding print_char scanmap_set1 scanmap_set1_upper
print_kb key lshift_status =
    if key == 0x2a || key == 0xaa || leb 0x80 key
    then []
    else if lshift_status
    then print_char (get_or scanmap_set1_upper key 0)
    else print_char (get_or scanmap_set1 key 0)

-- What is printed for one scan code, and `lshift_status` after it.
unfoldable pub ps2_keyboard_handler : (scancode : ℕ) → (lshift_status : Bool) → List ℕ × Bool
unfolding is_lshift print_kb
ps2_keyboard_handler scancode lshift_status =
    let status = (is_lshift scancode lshift_status).1 in (print_kb scancode status, status)

-- The interrupts of a sequence of scan codes, one after the other.
unfoldable pub handle_all : List ℕ → (lshift_status : Bool) → List ℕ × Bool
unfolding ps2_keyboard_handler
handle_all [] lshift_status = ([], lshift_status)
handle_all (code ∷ codes) lshift_status =
    let (text, status) = ps2_keyboard_handler code lshift_status in
    let (texts, status') = handle_all codes status in (text ++ texts, status')
