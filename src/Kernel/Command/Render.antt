-- ===== src/Kernel/Command/Render.antt =====
-- The outputs of a command on the terminal.
use orionis_os.Base.{◌∙◌, ℕ, refl, Bool, List, [], ◌∷◌}
use orionis_os.Kernel.Command.{
  Output, tty_print, print_hex, print_dec, tty_clear, outw, outb, breakpoint, wait, hlt, send,
  World,
}
use orionis_os.Kernel.Command.Dispatch.{execute_command}
use orionis_os.Kernel.Tty
use orionis_os.Kernel.Tty.{Framebuffer, Tty}
use orionis_os.Kernel.Tty.Frame.{IsFramebuffer, Within, tty_print-Within, tty_clear-Within}

-- What an output does to the terminal; the others do not touch it.
pub show : (ℕ → ℕ) → Framebuffer → Output → Tty → Tty
show font fb (tty_print text color) t = Tty.tty_print font fb text color t
show font fb (print_hex value color) t = Tty.print_hex font fb value color t
show font fb (print_dec value color) t = Tty.print_dec font fb value color t
show font fb tty_clear t = Tty.tty_clear fb t
show font fb (outw port value) t = t
show font fb (outb port value) t = t
show font fb breakpoint t = t
show font fb wait t = t
show font fb hlt t = t
show font fb (send packet) t = t

pub show_all : (ℕ → ℕ) → Framebuffer → List Output → Tty → Tty
show_all font fb [] t = t
show_all font fb (o ∷ os) t = show_all font fb os (show font fb o t)

module _ (font : ℕ → ℕ) (fb : Framebuffer) (v : IsFramebuffer fb) where
  show-Within : (o : Output) (t : Tty) → Within fb t.mem (show font fb o t).mem
  unfolding show Tty.print_hex Tty.print_dec
  show-Within (tty_print text color) t = tty_print-Within fb v font text color t
  show-Within (print_hex value color) t = tty_print-Within fb v font (Tty.hex_text value) color t
  show-Within (print_dec value color) t = tty_print-Within fb v font (Tty.dec_text value) color t
  show-Within tty_clear t = tty_clear-Within fb v t
  show-Within (outw port value) t = λ a out. refl
  show-Within (outb port value) t = λ a out. refl
  show-Within breakpoint t = λ a out. refl
  show-Within wait t = λ a out. refl
  show-Within hlt t = λ a out. refl
  show-Within (send packet) t = λ a out. refl

  show_all-Within : (os : List Output) (t : Tty) → Within fb t.mem (show_all font fb os t).mem
  unfolding show_all
  show_all-Within [] t = λ a out. refl
  show_all-Within (o ∷ os) t =
      λ a out. show_all-Within os (show font fb o t) a out ∙ show-Within o t a out

  -- Whatever command is typed, and with whatever answers of the rest of the kernel, what it prints
  -- changes no byte outside the frame buffer.
  pub execute_command-Within :
      (w : World) (buffer : ℕ → ℕ) (debug_mode : Bool) (t : Tty)
      → Within fb t.mem (show_all font fb (execute_command w buffer debug_mode).1 t).mem
  execute_command-Within w buffer debug_mode t =
      show_all-Within (execute_command w buffer debug_mode).1 t
