-- ===== src/Kernel/Keyboard/State.antt =====
-- What the flags of the keyboard driver say about the scan codes so far, and how they choose a
-- character.
use orionis_os.Base.{
  ◌∙◌, ℕ, ◌≡◌, refl, ap, Bool, true, false, List, [], ◌∷◌, arith, ◌==◌, ◌||◌, not, if◌then◌else◌,
}
use orionis_os.Kernel.Keyboard.{Keyboard, keyboard_handle_scancode}

-- The state after a sequence of scan codes.
unfoldable pub after : List ℕ → Keyboard → Keyboard
after [] k = k
after (code ∷ codes) k = after codes (keyboard_handle_scancode code k).0

abbrev is_press : ℕ → Bool
is_press code = code == 0x2A || code == 0x36

abbrev is_release : ℕ → Bool
is_release code = code == 0xAA || code == 0xB6

-- Whether the last scan code of a Shift key is a press; `b` if there is none.
pub shifted : List ℕ → Bool → Bool
shifted [] b = b
shifted (code ∷ codes) b =
    shifted codes (if is_press code then true else if is_release code then false else b)

-- `b`, turned over by each press of Caps Lock.
pub toggled : List ℕ → Bool → Bool
toggled [] b = b
toggled (code ∷ codes) b = toggled codes (if code == 0x3A then not b else b)

handle-flags :
    (code : ℕ) (k : Keyboard)
    → ((keyboard_handle_scancode code k).0.shift_pressed
        ≡ (if is_press code then true else if is_release code then false else k.shift_pressed))
      × ((keyboard_handle_scancode code k).0.caps_lock
          ≡ (if code == 0x3A then not k.caps_lock else k.caps_lock))
unfolding keyboard_handle_scancode
handle-flags code k = (ground arith, ground arith)

-- After any sequence of scan codes `shift_pressed` says whether the last code of a Shift key was a
-- press, and `caps_lock` whether Caps Lock was pressed an odd number of times, each from where it
-- stood before.
pub after-flags :
    (codes : List ℕ) (k : Keyboard)
    → ((after codes k).shift_pressed ≡ shifted codes k.shift_pressed)
      × ((after codes k).caps_lock ≡ toggled codes k.caps_lock)
unfolding after shifted toggled
after-flags [] k = (refl, refl)
after-flags (code ∷ codes) k =
    let (shift, caps) = handle-flags code k in
    let (shift', caps') = after-flags codes (keyboard_handle_scancode code k).0 in
    (shift' ∙ ap (shifted codes) shift, caps' ∙ ap (toggled codes) caps)
