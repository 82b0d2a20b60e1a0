-- ===== src/Kernel/Tty/Tests.antt =====
-- Runs of the terminal.
use orionis_os.Base.{ℕ, ◌≡◌, refl, List, [], ◌∷◌, arith}
use orionis_os.Base.Digits.{write_digits}
use orionis_os.Base.Printed.{text_from, dec_digit, IsText}
use orionis_os.Kernel.Tty.{Framebuffer, Tty, tty_print, make_room, scroll, dec_text, hex_text}
use orionis_os.Kernel.Tty.Frame.{Within, tty_print-Within}
use orionis_os.Kernel.Tty.Cursor.{IsOnScreen, make_room-IsOnScreen}
use orionis_os.Kernel.Tty.Numbers.{dec_text-IsText}

abbrev vga : Framebuffer
vga = record { addr = 0xE0000000; width = 640; height = 480; pitch = 2560 }

-- The end of the last line.
abbrev corner : Tty
corner = record { cursor_x = 640; cursor_y = 462; current_bg_color = 0x1E1E1E; mem = λ a. 0 }

make_room_run : ((make_room vga corner).cursor_x ≡ 10) × ((make_room vga corner).cursor_y ≡ 462)
unfolding make_room scroll
make_room_run = (refl, refl)

dec_run : dec_text 2024 ≡ 50 ∷ 48 ∷ 50 ∷ 52 ∷ []
unfolding dec_text text_from write_digits
dec_run = refl

hex_run : hex_text 0x2F ≡ 50 ∷ 70 ∷ []
unfolding hex_text text_from write_digits
hex_run = refl

abbrev greeting : List ℕ
greeting = 104 ∷ 105 ∷ 10 ∷ 8 ∷ 33 ∷ []

tty_print-Within_example :
    Within vga corner.mem (tty_print (λ i. 255) vga greeting 0xFFFFFF corner).mem
tty_print-Within_example =
    tty_print-Within vga (record { rows = omega arith; size = omega arith; tall = omega arith })
      (λ i. 255) greeting 0xFFFFFF corner

corner-IsOnScreen : IsOnScreen vga (make_room vga corner)
corner-IsOnScreen =
    make_room-IsOnScreen vga corner (omega arith) (omega arith) (omega arith) (omega arith)
      (omega arith) (omega arith)

dec_text-IsText_example : IsText 10 dec_digit 2024 (dec_text 2024)
dec_text-IsText_example = dec_text-IsText 2024 (omega arith)
