-- ===== src/Kernel/Shell/Bounds.antt =====
-- The shell's buffer: the index stays below its end, and nothing behind it is written.
use orionis_os.Base.{◌∙◌, ℕ, ◌≤◌, ◌<◌, ◌≡◌, refl, List, [], ◌∷◌, arith, ◌==◌, Bool-cases, inl, inr}
use orionis_os.Kernel.Shell.{
  Shell, is_positive, has_room, cmd_buffer_size, newline, backspace, init_shell,
  execute_and_reset_shell, shell_handle_char, shell_run,
}

-- The step from `s` to `s'` stays in the buffer.
pub record IsBounded (s s' : Shell) : Type 0 where
  pub index : s'.cmd_buffer_index < cmd_buffer_size
  pub outside : (i : ℕ) → cmd_buffer_size ≤ i → s'.cmd_buffer i ≡ s.cmd_buffer i

shell_handle_char-IsBounded :
    (c : ℕ) (s : Shell)
    → s.cmd_buffer_index < cmd_buffer_size
    → IsBounded s (shell_handle_char c s).0
unfolding shell_handle_char execute_and_reset_shell init_shell
shell_handle_char-IsBounded c s lt = elim (Bool-cases (c == newline)) [
  | inl enter ↦ rw enter (record { index = omega arith; outside = λ i far. ground arith })
  | inr other ↦ elim (Bool-cases (c == backspace)) [
    | inl back ↦
        rw (other, back)
          (elim (Bool-cases (is_positive s.cmd_buffer_index)) [
            | inl some_left ↦
                rw some_left
                  (record { index = ground (arith, some_left, lt); outside = λ i far. refl })
            | inr empty ↦ rw empty (record { index = lt; outside = λ i far. refl })
          ])
    | inr plain ↦
        rw (other, plain)
          (elim (Bool-cases (has_room s.cmd_buffer_index)) [
            | inl room ↦ rw room (record {
              index = ground (arith, room, lt);
              outside = λ i far. ground (arith, far, lt, room);
            })
            | inr full ↦ rw full (record { index = lt; outside = λ i far. refl })
          ])
  ]
]

-- From an index inside the buffer, no sequence of characters moves the index out of it or writes a
-- byte behind it.
pub shell_run-IsBounded :
    (cs : List ℕ) (s : Shell)
    → s.cmd_buffer_index < cmd_buffer_size
    → IsBounded s (shell_run cs s).0
unfolding shell_run
shell_run-IsBounded [] s lt = record { index = lt; outside = λ i far. refl }
shell_run-IsBounded (c ∷ cs) s lt =
    let step = shell_handle_char-IsBounded c s lt in
    let rest = shell_run-IsBounded cs (shell_handle_char c s).0 step.index in
    record { index = rest.index; outside = λ i far. rest.outside i far ∙ step.outside i far }
