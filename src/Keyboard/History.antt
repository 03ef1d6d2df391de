-- ===== src/Keyboard/History.antt =====
-- What the keyboard prints, from the history of scan codes alone: is_lshift, print_kb and
-- ps2_keyboard_handler of limine-c-template-x86-64/kernel/src.
use willow_os.Prelude.{
  ℕ, Bool, true, false, List, [], ◌∷◌, ◌++◌, ◌==◌, ◌||◌, leb, if◌then◌else◌, get_or,
}
use willow_os.Keyboard.{scanmap_set1, scanmap_set1_upper, print_char}

-- Left shift is held if, of the codes of its press and its release, the last was that of a press; the
-- history is the latest code first, and `at_start` is what held before it.
pub held : (at_start : Bool) → (history : List ℕ) → Bool
held at_start [] = at_start
held at_start (code ∷ history) =
    let before = held at_start history in
    if code == 0xaa then false else if code == 0x2a then true else before

-- The text of a key in its two positions: nothing for a release, for left shift and for codes that the
-- maps do not reach.
pub key_text : (shifted : Bool) → (key : ℕ) → List ℕ
unfolding print_char scanmap_set1 scanmap_set1_upper
key_text shifted key =
    if leb 0x80 key || key == 0x2a
    then []
    else print_char (get_or (if shifted then scanmap_set1_upper else scanmap_set1) key 0)

-- The text of codes that follow a history: each key as left shift stands when it comes.
pub typed : (at_start : Bool) → (history codes : List ℕ) → List ℕ
unfolding held key_text
typed at_start history [] = []
typed at_start history (code ∷ codes) =
    key_text (held at_start history) code ++ typed at_start (code ∷ history) codes
