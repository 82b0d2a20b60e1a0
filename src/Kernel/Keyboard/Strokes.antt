-- ===== src/Kernel/Keyboard/Strokes.antt =====
-- A text is typed on the keys of a US keyboard, and its lines are executed.
use orionis_os.Base.{
  ◌∙◌, ℕ, ◌+◌, ◌≡◌, refl, ap, Bool, true, false, Option, none, some, List, [], ◌∷◌, ◌++◌, arith,
  leb, ◌==◌, ◌&&◌, ◌||◌, not, if◌then◌else◌, All, all_below, all_below_sound,
}
use orionis_os.Base.Text.{codes}
use orionis_os.Kernel.Shell.Editor.{commands, edit_all, Shows}
use orionis_os.Kernel.Keyboard.{
  Keyboard, Console, init_keyboard, char_of, keyboard_handle_scancode, console_run,
}
use orionis_os.Kernel.Keyboard.State.{after}
use orionis_os.Kernel.Keyboard.Typing.{typed, console_run-commands}

-- The key of a character in a row of keys that begins at a scan code.
abbrev pub in_row : ℕ → List ℕ → ℕ → Option ℕ
in_row c [] key = none
in_row c (d ∷ row) key = if c == d then some key else in_row c row (key + 1)

abbrev or_else : Option ℕ → Option ℕ → Option ℕ
or_else (some key) o = some key
or_else none o = o

-- The four rows from top to bottom, and with Shift.
abbrev pub plain_key : ℕ → Option ℕ
plain_key c = or_else (in_row c (codes "1234567890-=") 2) (
    or_else (in_row c (codes "qwertyuiop[]") 16)
      (or_else (in_row c (codes "asdfghjkl;'`") 30) (in_row c (codes "\\zxcvbnm,./") 43)))

abbrev pub shifted_key : ℕ → Option ℕ
shifted_key c = or_else (in_row c (codes "!@#$%^&*()_+") 2) (
    or_else (in_row c (codes "QWERTYUIOP{}") 16)
      (or_else (in_row c (codes "ASDFGHJKL:\"~") 30) (in_row c (codes "|ZXCVBNM<>?") 43)))

-- A key is pressed and let go.
abbrev pub hit : ℕ → List ℕ
hit key = key ∷ (key + 0x80) ∷ []

-- The scan codes for a character; Shift is held down where it has to be.
unfoldable pub strokes : ℕ → List ℕ
strokes c =
    if c == b'\n'
    then hit 0x1C
    else if c == 8
    then hit 0x0E
    else if c == b' '
    then hit 0x39
    else elim (plain_key c) [
      | some key ↦ hit key
      | none ↦ elim (shifted_key c) [ none ↦ [] | some key ↦ 0x2A ∷ (hit key ++ (0xAA ∷ [])) ]
    ]

-- The line break, the backspace and the characters from the space to the tilde.
abbrev pub IsTypable : ℕ → Type 0
IsTypable c = (c == b'\n' || (c == 8 || (leb b' ' c && leb c b'~'))) ≡ true

unfoldable pub all_strokes : List ℕ → List ℕ
all_strokes [] = []
all_strokes (c ∷ text) = strokes c ++ all_strokes text

append_sent :
    (c : Option ℕ) (t s s' : List ℕ)
    → t ≡ s ++ s'
    → elim c [ none ↦ t | some c ↦ c ∷ t ] ≡ elim c [ none ↦ s | some c ↦ c ∷ s ] ++ s'
append_sent none t s s' e = e
append_sent (some c) t s s' e = ap (λ u. c ∷ u) e

typed-append :
    (xs ys : List ℕ) (k : Keyboard) → typed (xs ++ ys) k ≡ typed xs k ++ typed ys (after xs k)
unfolding typed after
typed-append [] ys k = refl
typed-append (code ∷ xs) ys k =
    let (next, c) = keyboard_handle_scancode code k in
    append_sent c (typed (xs ++ ys) next) (typed xs next) (typed ys (after xs next))
      (typed-append xs ys next)

abbrev is_single : ℕ → List ℕ → Bool
is_single c (d ∷ []) = d == c
is_single c _ = false

abbrev is_fresh : Keyboard → Bool
is_fresh k = not k.shift_pressed && not k.caps_lock

-- The strokes of a character type it, and leave no key down.
types : ℕ → Bool
types c =
    not (c == b'\n' || (c == 8 || (leb b' ' c && leb c b'~')))
    || (is_single c (typed (strokes c) init_keyboard) && is_fresh (after (strokes c) init_keyboard))

all_typed : all_below 127 types ≡ true
unfolding all_below types typed strokes after keyboard_handle_scancode char_of
all_typed = refl

single : (c : ℕ) (t : List ℕ) → is_single c t ≡ true → t ≡ c ∷ []
single c [] e = cc
single c (d ∷ []) e = let same : d ≡ c = ground (arith, e) in ap (λ x. x ∷ []) same
single c (d ∷ d' ∷ t) e = cc

fresh_flags :
    (shift caps : Bool)
    → (not shift && not caps) ≡ true
    → Path Keyboard (record { shift_pressed = shift; caps_lock = caps }) init_keyboard
fresh_flags false false e = refl
fresh_flags false true e = cc
fresh_flags true caps e = cc

fresh : (k : Keyboard) → is_fresh k ≡ true → k ≡ init_keyboard
fresh k e = fresh_flags k.shift_pressed k.caps_lock e

strokes-typed :
    (c : ℕ)
    → IsTypable c
    → (typed (strokes c) init_keyboard ≡ c ∷ []) × (after (strokes c) init_keyboard ≡ init_keyboard)
unfolding types
strokes-typed c h =
    let both = all_below_sound 127 c types all_typed (ground (arith, h)) in
    (
      single c (typed (strokes c) init_keyboard) (ground (arith, h, both)),
      fresh (after (strokes c) init_keyboard) (ground (arith, h, both)),
    )

all_strokes-typed :
    (text : List ℕ) → All IsTypable text → typed (all_strokes text) init_keyboard ≡ text
unfolding all_strokes typed
all_strokes-typed [] h = refl
all_strokes-typed (c ∷ text) (hc, h) =
    let (one, up) = strokes-typed c hc in
    typed-append (strokes c) (all_strokes text) init_keyboard
    ∙ (rw (one, up) (ap (λ t. c ∷ t) (all_strokes-typed text h)))

-- When no modifier key is on and the shell shows a line, and a text of characters from the space to the
-- tilde, line breaks and backspaces is typed on the keys of a US keyboard, with Shift held down for the
-- characters that need it, the commands that are executed are exactly the lines that the line editor makes
-- of this text.
pub console_run-text :
    (text : List ℕ) (t : Console) (line : List ℕ)
    → t.keyboard ≡ init_keyboard
    → All IsTypable text
    → Shows t.shell line
    → commands (console_run (all_strokes text) t).1 ≡ edit_all text line
console_run-text text t line fresh_keys h shows =
    console_run-commands (all_strokes text) t line shows
    ∙ ap (λ cs. edit_all cs line)
        (ap (typed (all_strokes text)) fresh_keys ∙ all_strokes-typed text h)
