-- ===== src/Kernel/Command/Tests.antt =====
-- Runs of commands.
use orionis_os.Base.{ℕ, ◌≡◌, refl, true, false, [], ◌∷◌, arith, get_or}
use orionis_os.Base.Text.{codes}
use orionis_os.Kernel.Command.{tty_print, World}
use orionis_os.Kernel.Command.Debug.{execute_command_echo}
use orionis_os.Kernel.Command.Dispatch.{execute_command, is_word}
use orionis_os.Kernel.Command.Render.{show_all, execute_command-Within}
use orionis_os.Kernel.Tty.{Framebuffer, Tty}
use orionis_os.Kernel.Tty.Frame.{Within}

abbrev world : World
world = record {
  cmos = λ a. 0;
  memory = record {
    next = λ a. 0;
    free_list = λ i. 0;
    total_physical_pages = 0;
    buddy_used_pages = 0;
    buddy_total_managed_pages = 0;
  };
  cpu = record { vendor = []; brand = []; ecx = 0; edx = 0; l1 = 0; l2 = 0; l3 = 0 };
  config = λ a. 0xFFFFFFFF;
  mac = [];
  can_send = λ packet. true;
  view = record { cursor_x = 10; cursor_y = 0; bg_color = 0; address = 0 };
}

abbrev echo_line : ℕ → ℕ
echo_line i = get_or (codes "echo   hi") i 0

execute_command_echo_example :
    execute_command world echo_line false
    ≡ (false, tty_print (codes "hi") 0xFFFFFF ∷ tty_print (codes "\n") 0xFFFFFF ∷ [])
execute_command_echo_example =
    execute_command_echo world echo_line 2 b'h' (b'i' ∷ []) (omega arith) (omega arith)
      (omega arith)

debug_run :
    execute_command world (λ i. get_or (codes "debug") i 0) false
    ≡ (true, tty_print (codes "\nDebug mode enabled.\n") 0x00FF00 ∷ [])
unfolding execute_command is_word
debug_run = refl

abbrev screen : Framebuffer
screen = record { addr = 0xE0000000; width = 640; height = 480; pitch = 2560 }

abbrev terminal : Tty
terminal = record { cursor_x = 10; cursor_y = 0; current_bg_color = 0x1E1E1E; mem = λ a. 0 }

execute_command-Within_example :
    Within screen terminal.mem
      (show_all (λ i. 255) screen (execute_command world echo_line false).1 terminal).mem
execute_command-Within_example =
    execute_command-Within (λ i. 255) screen
      (record { rows = omega arith; size = omega arith; tall = omega arith }) world echo_line false
      terminal
