-- ===== src/Kernel/Command/Dispatch.antt =====
-- `execute_command`: the buffer holds the command from its first byte on. `debug_mode` goes in and
-- comes out.
use orionis_os.Base.{
  ℕ, suc, ◌+◌, Bool, true, false, List, [], ◌∷◌, ◌++◌, ◌==◌, ◌&&◌, ◌||◌, if◌then◌else◌,
}
use orionis_os.Base.Text.{codes}
use orionis_os.Kernel.Command.{Output, tty_print, print_hex, View, World}
use orionis_os.Kernel.Command.Replies.{
  cmd_help, cmd_clear, cmd_echo, cmd_shutdown, cmd_meminfo, cmd_cpuinfo, cmd_time, cmd_panic,
  cmd_memtest, cmd_nettest_virtio, cmd_version, cmd_lspci, cmd_reboot, read_text,
}

-- `strncmp(command, word, strlen(word)) == 0`, from byte `i` on.
unfoldable pub starts_with : (ℕ → ℕ) → ℕ → List ℕ → Bool
starts_with buffer i [] = true
starts_with buffer i (c ∷ word) = buffer i == c && starts_with buffer (i + 1) word

-- `strcmp(command, word) == 0`.
unfoldable pub is_word : (ℕ → ℕ) → ℕ → List ℕ → Bool
is_word buffer i [] = buffer i == 0
is_word buffer i (c ∷ word) = buffer i == c && is_word buffer (i + 1) word

abbrev yellow : ℕ
yellow = 0xFFFF00

-- The bytes of the command and of its end.
pub hex_dump : List ℕ → List Output
hex_dump [] =
    tty_print (codes "0x") 0xAAAAAA ∷ print_hex 0 0xAAAAAA ∷ tty_print (codes " ") 0xAAAAAA ∷ []
hex_dump (c ∷ text) =
    tty_print (codes "0x") 0xAAAAAA
    ∷ print_hex c 0xAAAAAA
    ∷ tty_print (codes " ") 0xAAAAAA
    ∷ hex_dump text

count : List ℕ → ℕ
count [] = 0
count (c ∷ text) = suc (count text)

pub debug_report : View → List ℕ → List Output
debug_report view text =
    tty_print (codes "\n[DEBUG] Received command string: '") yellow
    ∷ tty_print text yellow
    ∷ tty_print (codes "'\n") yellow
    ∷ tty_print (codes "[DEBUG] String length: ") yellow
    ∷ print_hex (count text) yellow
    ∷ tty_print (codes "\n") yellow
    ∷ tty_print (codes "[DEBUG] Hex dump: ") yellow
    ∷ (hex_dump text
        ++ tty_print (codes "\n") yellow
          ∷ tty_print (codes "[DEBUG] Cursor: (") yellow
          ∷ print_hex view.cursor_x yellow
          ∷ tty_print (codes ",") yellow
          ∷ print_hex view.cursor_y yellow
          ∷ tty_print (codes ")\n") yellow
          ∷ tty_print (codes "[DEBUG] BG Color: 0x") yellow
          ∷ print_hex view.bg_color yellow
          ∷ tty_print (codes "\n") yellow
          ∷ tty_print (codes "[DEBUG] Command ptr: 0x") yellow
          ∷ print_hex view.address yellow
          ∷ tty_print (codes "\n") yellow
          ∷ [])

-- The second part: the chain of comparisons.
unfoldable pub run_command : World → (ℕ → ℕ) → List Output
run_command w command =
    if is_word command 0 (codes "help")
    then cmd_help
    else if is_word command 0 (codes "clear")
    then cmd_clear
    else if starts_with command 0 (codes "echo") && (command 4 == b' ' || command 4 == 0)
    then cmd_echo command
    else if is_word command 0 (codes "shutdown")
    then cmd_shutdown
    else if is_word command 0 (codes "meminfo")
    then cmd_meminfo w.memory
    else if is_word command 0 (codes "cpuinfo")
    then cmd_cpuinfo w.cpu
    else if is_word command 0 (codes "version")
    then cmd_version
    else if is_word command 0 (codes "panic")
    then cmd_panic
    else if is_word command 0 (codes "time")
    then cmd_time w.cmos
    else if is_word command 0 (codes "memtest")
    then cmd_memtest
    else if is_word command 0 (codes "nettest")
    then cmd_nettest_virtio w.mac w.can_send
    else if is_word command 0 (codes "lspci")
    then cmd_lspci w.config
    else if is_word command 0 (codes "reboot")
    then cmd_reboot
    else tty_print (codes "\nUnknown command: ") 0xFF6060
      ∷ tty_print (read_text 256 command 0) 0xFF6060
      ∷ tty_print (codes "\n") 0xFF6060
      ∷ []

unfoldable pub execute_command : World → (ℕ → ℕ) → Bool → Bool × List Output
execute_command w command debug_mode =
    if is_word command 0 (codes "debug")
    then (true, tty_print (codes "\nDebug mode enabled.\n") 0x00FF00 ∷ [])
    else if is_word command 0 (codes "undebug")
    then (
      false,
      (if debug_mode
          then tty_print (codes "\nDebug mode disabled.\n") 0x00FF00 ∷ []
          else tty_print (codes "\nNo debug mode found.\n") 0xFF6060 ∷ []),
    )
    else (
      debug_mode,
      (if debug_mode then debug_report w.view (read_text 256 command 0) else [])
          ++ run_command w command,
    )
