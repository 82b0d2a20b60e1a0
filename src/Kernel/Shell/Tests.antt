-- ===== src/Kernel/Shell/Tests.antt =====
-- Runs of the shell.
use orionis_os.Base.{store, ℕ, ◌≡◌, refl, List, [], ◌∷◌, arith}
use orionis_os.Kernel.Shell.{Shell, shell_run, shell_handle_char}
use orionis_os.Kernel.Shell.Bounds.{IsBounded, shell_run-IsBounded}
use orionis_os.Kernel.Shell.Editor.{
  commands, edit_all, c_string, turned, Shows, Holds, shell_run-commands,
}

abbrev started : Shell
started = record { cmd_buffer = λ i. 0; cmd_buffer_index = 0 }

-- l, s, x, backspace, newline.
abbrev keys : List ℕ
keys = 108 ∷ 115 ∷ 120 ∷ 8 ∷ 10 ∷ []

keys-commands : edit_all keys [] ≡ (108 ∷ 115 ∷ []) ∷ []
unfolding edit_all turned
keys-commands = refl

started-Shows : Shows started []
unfolding Holds
started-Shows = record { index = refl; fits = omega arith; chars = tt }

shell_run-IsBounded_example : IsBounded started (shell_run keys started).0
shell_run-IsBounded_example = shell_run-IsBounded keys started (omega arith)

shell_run-commands_example : commands (shell_run keys started).1 ≡ edit_all keys []
shell_run-commands_example =
    shell_run-commands keys started []
      (omega arith, (omega arith, (omega arith, (omega arith, (omega arith, tt))))) started-Shows

-- echo hi, then three times backspace: the string is "echo", and the two letters still stand behind
-- its end, where `cmd_echo` starts to read.
abbrev echo_keys : List ℕ
echo_keys = 101 ∷ 99 ∷ 104 ∷ 111 ∷ 32 ∷ 104 ∷ 105 ∷ 8 ∷ 8 ∷ 8 ∷ []

abbrev echo_buffer : ℕ → ℕ
echo_buffer = store (shell_run echo_keys started).0.cmd_buffer 4 0

echo_stale :
    (c_string 256 echo_buffer 0 ≡ 101 ∷ 99 ∷ 104 ∷ 111 ∷ [])
    × (c_string 256 echo_buffer 5 ≡ 104 ∷ 105 ∷ [])
unfolding shell_run shell_handle_char c_string
echo_stale = (refl, refl)
