-- ===== src/Kernel/Keyboard/Typing.antt =====
-- The keyboard driver and the shell together: from scan codes to commands.
use orionis_os.Base.{
  ◌∙◌, ℕ, ◌≡◌, ◌≢◌, refl, ap, Bool, true, false, Option, none, some, List, [], ◌∷◌, ◌++◌, arith,
  leb, ◌==◌, ◌||◌, not, if◌then◌else◌, All, Bool-cases, inl, inr,
}
use orionis_os.Kernel.Shell.{Shell, shell_handle_char, shell_run}
use orionis_os.Kernel.Shell.Editor.{commands, edit_all, Shows, shell_run-commands}
use orionis_os.Kernel.Keyboard.{
  Keyboard, Console, char_of, not_null, keyboard_handle_scancode, send, console_run,
}

-- The characters that the driver makes of the scan codes.
unfoldable pub typed : List ℕ → Keyboard → List ℕ
typed [] k = []
typed (code ∷ codes) k =
    let (next, c) = keyboard_handle_scancode code k in
    elim c [ none ↦ typed codes next | some c ↦ c ∷ typed codes next ]

IsChar : Option ℕ → Type 0
IsChar none = Unit
IsChar (some c) = c ≢ 0

not_null-IsChar : (c : ℕ) → IsChar (not_null c)
unfolding IsChar
not_null-IsChar c = elim (Bool-cases (c == 0)) [
  | inl null ↦ rw null tt
  | inr other ↦ rw other (ground arith)
]

-- What a scan code sends is no null character.
Sound : Keyboard × Option ℕ → Type 0
Sound x = IsChar (x.1)

either : (b : Bool) (x y : Keyboard × Option ℕ) → Sound x → Sound y → Sound (if b then x else y)
either true x y hx hy = hx
either false x y hx hy = hy

silent : (k : Keyboard) → Sound (k, none)
unfolding Sound IsChar
silent k = tt

sends : (k : Keyboard) (c : ℕ) → c ≢ 0 → Sound (k, some c)
unfolding Sound IsChar
sends k c ne = ne

typed_step :
    (codes : List ℕ) (next : Keyboard) (c : Option ℕ)
    → IsChar c
    → All (λ c. c ≢ 0) (typed codes next)
    → All (λ c. c ≢ 0) (elim c [ none ↦ typed codes next | some c ↦ c ∷ typed codes next ])
unfolding IsChar
typed_step codes next none h rest = rest
typed_step codes next (some c) h rest = (h, rest)

send_step :
    (codes : List ℕ) (next : Keyboard) (c : Option ℕ) (s : Shell)
    → ((s' : Shell)
        → (console_run codes (record { keyboard = next; shell = s' })).1
          ≡ (shell_run (typed codes next) s').1)
    → (send c s).1 ++ (console_run codes (record { keyboard = next; shell = (send c s).0 })).1
      ≡ (shell_run (elim c [ none ↦ typed codes next | some c ↦ c ∷ typed codes next ]) s).1
unfolding shell_run
send_step codes next none s h = h s
send_step codes next (some c) s h =
    ap (λ acts. (shell_handle_char c s).1 ++ acts) (h (shell_handle_char c s).0)

looks_up : (k : Keyboard) (c : ℕ) → Sound (k, not_null c)
unfolding Sound
looks_up k c = not_null-IsChar c

handle-Sound : (code : ℕ) (k : Keyboard) → Sound (keyboard_handle_scancode code k)
unfolding keyboard_handle_scancode
handle-Sound code k =
    either (code == 0x2A || code == 0x36) _ _ (silent (record k { shift_pressed = true })) (
      either (code == 0xAA || code == 0xB6) _ _ (silent (record k { shift_pressed = false })) (
        either (code == 0x3A) _ _ (silent (record k { caps_lock = not k.caps_lock })) (
          either (code == 0x0E) _ _ (sends k 8 (omega arith)) (
            either (code == 0x1C) _ _ (sends k 10 (omega arith)) (
              either (code == 0x39) _ _ (sends k 32 (omega arith))
                (either (leb 0x80 code) _ _ (silent k) (looks_up k (char_of k code))))))))

handle-IsChar : (code : ℕ) (k : Keyboard) → IsChar (keyboard_handle_scancode code k).1
unfolding Sound
handle-IsChar code k = handle-Sound code k

typed-All : (codes : List ℕ) (k : Keyboard) → All (λ c. c ≢ 0) (typed codes k)
unfolding typed
typed-All [] k = tt
typed-All (code ∷ codes) k =
    typed_step codes (keyboard_handle_scancode code k).0 (keyboard_handle_scancode code k).1
      (handle-IsChar code k) (typed-All codes (keyboard_handle_scancode code k).0)

console_run-shell :
    (codes : List ℕ) (t : Console)
    → (console_run codes t).1 ≡ (shell_run (typed codes t.keyboard) t.shell).1
unfolding console_run typed shell_run
console_run-shell [] t = refl
console_run-shell (code ∷ codes) t =
    send_step codes (keyboard_handle_scancode code t.keyboard).0
      (keyboard_handle_scancode code t.keyboard).1 t.shell
      (λ s.
        console_run-shell codes
          (record { keyboard = (keyboard_handle_scancode code t.keyboard).0; shell = s }))

-- Where the shell shows a line, the commands that a sequence of scan codes executes are exactly the
-- lines that the line editor makes of the characters typed.
pub console_run-commands :
    (codes : List ℕ) (t : Console) (line : List ℕ)
    → Shows t.shell line
    → commands (console_run codes t).1 ≡ edit_all (typed codes t.keyboard) line
console_run-commands codes t line shows =
    ap commands (console_run-shell codes t)
    ∙ shell_run-commands (typed codes t.keyboard) t.shell line (typed-All codes t.keyboard) shows
