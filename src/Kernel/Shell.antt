-- ===== src/Kernel/Shell.antt =====
-- The command line of command/shell.cpp. A character is its code. What the shell does to the outside
-- is a list of actions; `execute` is the call of `execute_command` with the buffer.
pub mod Bounds
pub mod Editor
mod Tests
use orionis_os.Base.{
  ℕ, ◌+◌, ◌-◌, Bool, List, [], ◌∷◌, ◌++◌, ltb, leb, ◌==◌, ◌^◌, ◌%◌, ◌&&◌, ◌||◌, u32, if◌then◌else◌,
  store,
}

abbrev pub cmd_buffer_size : ℕ
cmd_buffer_size = 256

abbrev pub newline : ℕ
newline = 10

abbrev pub backspace : ℕ
backspace = 8

-- The index is an `int`, taken as a word of 32 bits: from 2 ^ 31 on it is negative.
pub record Shell : Type 0 where
  pub cmd_buffer : ℕ → ℕ
  pub cmd_buffer_index : ℕ

pub data Action : Type 0 where
  -- `tty_print` of the prompt.
  prompt : Action
  -- `tty_putc`, or `tty_print` of a string of one character.
  put : ℕ → Action
  execute : (ℕ → ℕ) → Action

abbrev pub is_positive : ℕ → Bool
is_positive i = ltb 0 i && ltb i (2 ^ 31)

abbrev pub has_room : ℕ → Bool
has_room i = ltb i (cmd_buffer_size - 1) || leb (2 ^ 31) i

abbrev pub cleared : (ℕ → ℕ) → ℕ → ℕ
cleared buffer i = if ltb i cmd_buffer_size then 0 else buffer i

unfoldable pub init_shell : Shell → Shell × List Action
init_shell s = (record { cmd_buffer = cleared s.cmd_buffer; cmd_buffer_index = 0 }, prompt ∷ [])

unfoldable pub execute_and_reset_shell : Shell → Shell × List Action
execute_and_reset_shell s =
    let ended = record s { cmd_buffer = store s.cmd_buffer s.cmd_buffer_index 0 } in
    let (fresh, prompted) = init_shell ended in
    (
      fresh,
      put newline
          ∷ (if is_positive ended.cmd_buffer_index
              then execute ended.cmd_buffer ∷ prompted
              else prompted),
    )

unfoldable pub shell_handle_char : ℕ → Shell → Shell × List Action
shell_handle_char c s =
    if c == newline
    then execute_and_reset_shell s
    else if c == backspace
    then (if is_positive s.cmd_buffer_index
        then (
          record s { cmd_buffer_index = u32 (s.cmd_buffer_index + 2 ^ 32 - 1) },
          put backspace ∷ [],
        )
        else (s, []))
    else if has_room s.cmd_buffer_index
    then (
      record {
        cmd_buffer = store s.cmd_buffer s.cmd_buffer_index c;
        cmd_buffer_index = u32 (s.cmd_buffer_index + 1);
      },
      put c ∷ [],
    )
    else (s, [])

-- A sequence of characters, one call after the other.
unfoldable pub shell_run : List ℕ → Shell → Shell × List Action
shell_run [] s = (s, [])
shell_run (c ∷ cs) s =
    let (next, first) = shell_handle_char c s in
    let (last, rest) = shell_run cs next in (last, first ++ rest)
