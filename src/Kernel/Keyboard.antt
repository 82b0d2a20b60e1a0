-- ===== src/Kernel/Keyboard.antt =====
-- The keyboard driver of kernel/drivers/keyboard.cpp: scan codes in, characters for the shell out.
pub mod State
pub mod Typing
mod Strokes
mod Tests
use orionis_os.Base.{
  ℕ, ◌+◌, Bool, true, false, Option, none, some, List, [], ◌∷◌, ◌++◌, ltb, leb, ◌==◌, ◌&&◌, ◌||◌,
  not, if◌then◌else◌, length, get_or,
}
use orionis_os.Kernel.Shell.{Shell, Action, shell_handle_char}

-- The tables, as character codes.
abbrev pub scancode_to_char_lower : List ℕ
scancode_to_char_lower =
    0 ∷ 0 ∷ 49 ∷ 50 ∷ 51 ∷ 52 ∷ 53 ∷ 54 ∷ 55 ∷ 56 ∷ 57 ∷ 48 ∷ 45 ∷ 61 ∷ 0 ∷ 0 ∷ 113 ∷ 119 ∷ 101
    ∷ 114 ∷ 116 ∷ 121 ∷ 117 ∷ 105 ∷ 111 ∷ 112 ∷ 91 ∷ 93 ∷ 10 ∷ 0 ∷ 97 ∷ 115 ∷ 100 ∷ 102 ∷ 103 ∷ 104
    ∷ 106 ∷ 107 ∷ 108 ∷ 59 ∷ 39 ∷ 96 ∷ 0 ∷ 92 ∷ 122 ∷ 120 ∷ 99 ∷ 118 ∷ 98 ∷ 110 ∷ 109 ∷ 44 ∷ 46 ∷ 47
    ∷ 0 ∷ 42 ∷ 0 ∷ 32 ∷ 0 ∷ 0 ∷ 0 ∷ 0 ∷ 0 ∷ 0 ∷ 0 ∷ 0 ∷ 0 ∷ 0 ∷ 0 ∷ 0 ∷ 0 ∷ 0 ∷ 0 ∷ 0 ∷ 0 ∷ 0 ∷ 0
    ∷ 0 ∷ 0 ∷ 0 ∷ 0 ∷ 0 ∷ 0 ∷ 0 ∷ 0 ∷ 0 ∷ 0 ∷ 0 ∷ 0 ∷ 0 ∷ 0 ∷ 0 ∷ 0 ∷ 0 ∷ 0 ∷ 0 ∷ 0 ∷ 0 ∷ 0 ∷ 0 ∷ 0
    ∷ 0 ∷ 0 ∷ 0 ∷ 0 ∷ 0 ∷ []

abbrev pub scancode_to_char_upper : List ℕ
scancode_to_char_upper =
    0 ∷ 0 ∷ 33 ∷ 64 ∷ 35 ∷ 36 ∷ 37 ∷ 94 ∷ 38 ∷ 42 ∷ 40 ∷ 41 ∷ 95 ∷ 43 ∷ 0 ∷ 0 ∷ 81 ∷ 87 ∷ 69 ∷ 82
    ∷ 84 ∷ 89 ∷ 85 ∷ 73 ∷ 79 ∷ 80 ∷ 123 ∷ 125 ∷ 10 ∷ 0 ∷ 65 ∷ 83 ∷ 68 ∷ 70 ∷ 71 ∷ 72 ∷ 74 ∷ 75 ∷ 76
    ∷ 58 ∷ 34 ∷ 126 ∷ 0 ∷ 124 ∷ 90 ∷ 88 ∷ 67 ∷ 86 ∷ 66 ∷ 78 ∷ 77 ∷ 60 ∷ 62 ∷ 63 ∷ 0 ∷ 42 ∷ 0 ∷ 32
    ∷ 0 ∷ 0 ∷ 0 ∷ 0 ∷ 0 ∷ 0 ∷ 0 ∷ 0 ∷ 0 ∷ 0 ∷ 0 ∷ 0 ∷ 0 ∷ 0 ∷ 0 ∷ 0 ∷ 0 ∷ 0 ∷ 0 ∷ 0 ∷ 0 ∷ 0 ∷ 0 ∷ 0
    ∷ 0 ∷ 0 ∷ 0 ∷ 0 ∷ 0 ∷ 0 ∷ 0 ∷ 0 ∷ 0 ∷ 0 ∷ 0 ∷ 0 ∷ 0 ∷ 0 ∷ 0 ∷ 0 ∷ 0 ∷ 0 ∷ 0 ∷ 0 ∷ 0 ∷ 0 ∷ 0 ∷ 0
    ∷ []

pub record Keyboard : Type 0 where
  pub shift_pressed : Bool
  pub caps_lock : Bool

abbrev pub init_keyboard : Keyboard
init_keyboard = record { shift_pressed = false; caps_lock = false }

abbrev pub different : Bool → Bool → Bool
different true b = not b
different false b = b

-- The lookup; 0 stands for no character.
pub char_of : Keyboard → ℕ → ℕ
char_of k scancode =
    if different k.shift_pressed k.caps_lock && ltb scancode (length scancode_to_char_upper)
    then get_or scancode_to_char_upper scancode 0
    else if ltb scancode (length scancode_to_char_lower)
    then get_or scancode_to_char_lower scancode 0
    else 0

abbrev pub not_null : ℕ → Option ℕ
not_null c = if c == 0 then none else some c

-- The new state, and the character that goes to `shell_handle_char`, if any.
pub keyboard_handle_scancode : ℕ → Keyboard → Keyboard × Option ℕ
keyboard_handle_scancode scancode k =
    if scancode == 0x2A || scancode == 0x36
    then (record k { shift_pressed = true }, none)
    else if scancode == 0xAA || scancode == 0xB6
    then (record k { shift_pressed = false }, none)
    else if scancode == 0x3A
    then (record k { caps_lock = not k.caps_lock }, none)
    else if scancode == 0x0E
    then (k, some 8)
    else if scancode == 0x1C
    then (k, some 10)
    else if scancode == 0x39
    then (k, some 32)
    else if leb 0x80 scancode
    then (k, none)
    else (k, not_null (char_of k scancode))

-- The driver together with the shell.
pub record Console : Type 0 where
  pub keyboard : Keyboard
  pub shell : Shell

abbrev pub send : Option ℕ → Shell → Shell × List Action
send none s = (s, [])
send (some c) s = shell_handle_char c s

pub console_run : List ℕ → Console → Console × List Action
console_run [] t = (t, [])
console_run (code ∷ codes) t =
    let (keyboard, c) = keyboard_handle_scancode code t.keyboard in
    let (shell, first) = send c t.shell in
    let (last, rest) = console_run codes (record { keyboard = keyboard; shell = shell }) in
    (last, first ++ rest)
