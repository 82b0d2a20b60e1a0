-- ===== src/Kernel/Keyboard/Tests.antt =====
-- Runs of the keyboard driver and the shell.
use orionis_os.Base.{ℕ, ◌≡◌, refl, false, List, [], ◌∷◌, arith}
use orionis_os.Base.Text.{codes}
use orionis_os.Kernel.Shell.Editor.{commands, edit_all, turned, Shows, Holds}
use orionis_os.Kernel.Keyboard.{
  Console, init_keyboard, char_of, keyboard_handle_scancode, console_run,
}
use orionis_os.Kernel.Keyboard.State.{after, shifted, toggled, after-flags}
use orionis_os.Kernel.Keyboard.Strokes.{all_strokes, console_run-text}
use orionis_os.Kernel.Keyboard.Typing.{typed, console_run-commands}

abbrev console : Console
console = record {
  keyboard = init_keyboard;
  shell = record { cmd_buffer = λ i. 0; cmd_buffer_index = 0 };
}

-- Shift and l, s released, s, backspace, s, Enter.
abbrev keys : List ℕ
keys = 0x2A ∷ 0x26 ∷ 0xAA ∷ 0x1F ∷ 0x9F ∷ 0x0E ∷ 0x1F ∷ 0x1C ∷ []

typed-keys : typed keys init_keyboard ≡ 76 ∷ 115 ∷ 8 ∷ 115 ∷ 10 ∷ []
unfolding typed keyboard_handle_scancode char_of
typed-keys = refl

-- With Caps Lock the key 1 gives an exclamation mark.
caps_one : typed (0x3A ∷ 0x02 ∷ []) init_keyboard ≡ 0x21 ∷ []
unfolding typed keyboard_handle_scancode char_of
caps_one = refl

-- A Shift key is let go while the other one is still down, and lower case comes out.
both_shifts : typed (0x2A ∷ 0x36 ∷ 0xAA ∷ 0x1E ∷ []) init_keyboard ≡ 97 ∷ []
unfolding typed keyboard_handle_scancode char_of
both_shifts = refl

empty_line : Shows console.shell []
unfolding Holds
empty_line = record { index = refl; fits = omega arith; chars = tt }

after-flags_example :
    ((after keys init_keyboard).shift_pressed ≡ shifted keys false)
    × ((after keys init_keyboard).caps_lock ≡ toggled keys false)
after-flags_example = after-flags keys init_keyboard

console_run-commands_run :
    commands (console_run keys console).1 ≡ edit_all (typed keys init_keyboard) []
console_run-commands_run = console_run-commands keys console [] empty_line

console_run-text_example :
    commands (console_run (all_strokes (codes "Hi!\n")) console).1 ≡ edit_all (codes "Hi!\n") []
console_run-text_example =
    console_run-text (codes "Hi!\n") console [] refl (refl, (refl, (refl, (refl, tt)))) empty_line

typed_run : edit_all (codes "Hi!\n") [] ≡ codes "Hi!" ∷ []
unfolding edit_all turned
typed_run = refl
