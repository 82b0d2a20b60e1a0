-- ===== src/Kernel/Shell/Editor.antt =====
-- The shell against a line editor that has no buffer: it keeps the characters typed so far, the last
-- one first, and gives out finished lines.
use orionis_os.Base.{
  ◌∙◌, ℕ, zero, suc, ◌+◌, ◌-◌, ◌≤◌, ◌<◌, ◌≡◌, ◌≢◌, refl, ap, true, false, List, [], ◌∷◌, ◌++◌,
  arith, ltb, ◌==◌, if◌then◌else◌, store, u32, length, All, Bool-cases, inl, inr,
}
use orionis_os.Kernel.Shell.{
  Shell, is_positive, has_room, Action, prompt, put, execute, cmd_buffer_size, newline, backspace,
  init_shell, execute_and_reset_shell, shell_handle_char, shell_run,
}

-- The characters of the string that starts at index `i`, at most `n`.
unfoldable pub c_string : ℕ → (ℕ → ℕ) → ℕ → List ℕ
c_string zero buffer i = []
c_string (suc n) buffer i =
    let rest = c_string n buffer (i + 1) in if buffer i == 0 then [] else buffer i ∷ rest

-- The strings with which `execute_command` is called.
unfoldable pub commands : List Action → List (List ℕ)
commands [] = []
commands (prompt ∷ acts) = commands acts
commands (put c ∷ acts) = commands acts
commands (execute buffer ∷ acts) = c_string cmd_buffer_size buffer 0 ∷ commands acts

-- A list turned round, in front of another one.
unfoldable pub turned : List ℕ → List ℕ → List ℕ
turned [] acc = acc
turned (c ∷ line) acc = turned line (c ∷ acc)

abbrev drop_last : List ℕ → List ℕ
drop_last [] = []
drop_last (c ∷ line) = line

-- A line that is not empty is given out.
abbrev pub submitted : List ℕ → List (List ℕ)
submitted [] = []
submitted (c ∷ line) = turned (c ∷ line) [] ∷ []

-- The line after a character, and what is given out.
abbrev pub edit : ℕ → List ℕ → List ℕ × List (List ℕ)
edit c line =
    if c == newline
    then ([], submitted line)
    else if c == backspace
    then (drop_last line, [])
    else if ltb (length line) 255
    then (c ∷ line, [])
    else (line, [])

-- The lines that a sequence of characters gives out.
unfoldable pub edit_all : List ℕ → List ℕ → List (List ℕ)
edit_all [] line = []
edit_all (c ∷ cs) line = let (next, out) = edit c line in out ++ edit_all cs next

-- The buffer begins with the line.
unfoldable pub Holds : (ℕ → ℕ) → List ℕ → Type 0
Holds buffer [] = Unit
Holds buffer (c ∷ line) = (buffer (length line) ≡ c) × (c ≢ 0) × Holds buffer line

pub record Shows (s : Shell) (line : List ℕ) : Type 0 where
  pub index : s.cmd_buffer_index ≡ length line
  pub fits : length line < cmd_buffer_size
  pub chars : Holds s.cmd_buffer line

Holds-store :
    (buffer : ℕ → ℕ) (i v : ℕ) (line : List ℕ)
    → length line ≤ i
    → Holds buffer line
    → Holds (store buffer i v) line
unfolding Holds
Holds-store buffer i v [] le h = tt
Holds-store buffer i v (c ∷ line) le (here, some_char, rest) =
    (ground (arith, here), some_char, Holds-store buffer i v line (omega arith) rest)

c_string-turned :
    (buffer : ℕ → ℕ) (m k : ℕ) (line acc : List ℕ)
    → Holds buffer line
    → k ≡ length line + m
    → c_string m buffer (length line) ≡ acc
    → c_string k buffer 0 ≡ turned line acc
unfolding Holds c_string turned
c_string-turned buffer m k [] acc h e read = let same : k ≡ m = omega arith in rw same read
c_string-turned buffer m k (c ∷ line) acc (here, some_char, rest) e read =
    c_string-turned buffer (suc m) k line (c ∷ acc) rest (omega arith) (
      let more : (buffer (length line) == 0) ≡ false = ground (arith, here, some_char) in
      let next : length line + 1 ≡ suc (length line) = omega arith in
      rw (more, here, next, read) refl)

ended_reads :
    (buffer : ℕ → ℕ) (i : ℕ) (line : List ℕ)
    → i ≡ length line
    → length line < cmd_buffer_size
    → Holds buffer line
    → c_string cmd_buffer_size (store buffer i 0) 0 ≡ turned line []
unfolding c_string
ended_reads buffer i line at_end fits h =
    let stop : (store buffer i 0 (length line) == 0) ≡ true = ground (arith, at_end) in
    c_string-turned (store buffer i 0) (suc (255 - length line)) cmd_buffer_size line []
      (Holds-store buffer i 0 line (omega (arith, at_end)) h) (omega arith) (rw stop refl)

commands-append : (acts bs : List Action) → commands (acts ++ bs) ≡ commands acts ++ commands bs
unfolding commands
commands-append [] bs = refl
commands-append (prompt ∷ acts) bs = commands-append acts bs
commands-append (put c ∷ acts) bs = commands-append acts bs
commands-append (execute buffer ∷ acts) bs =
    ap (λ t. c_string cmd_buffer_size buffer 0 ∷ t) (commands-append acts bs)

enter-edit :
    (s : Shell) (line : List ℕ)
    → Shows s line
    → Shows (execute_and_reset_shell s).0 []
      × (commands (execute_and_reset_shell s).1 ≡ submitted line)
unfolding execute_and_reset_shell init_shell commands Holds
enter-edit s [] shows =
    let none_typed : is_positive s.cmd_buffer_index ≡ false = ground (arith, shows.index) in
    (record { index = refl; fits = omega arith; chars = tt }, rw none_typed refl)
enter-edit s (c ∷ line) shows =
    let some_typed : is_positive s.cmd_buffer_index ≡ true =
      ground (arith, shows.index, shows.fits) in
    (
      record { index = refl; fits = omega arith; chars = tt },
      rw some_typed (
          ap (λ t. t ∷ [])
            (ended_reads s.cmd_buffer s.cmd_buffer_index (c ∷ line) shows.index shows.fits
              shows.chars)),
    )

back-edit :
    (s : Shell) (line : List ℕ)
    → Shows s line
    → Shows (shell_handle_char backspace s).0 (drop_last line)
      × (commands (shell_handle_char backspace s).1 ≡ [])
unfolding shell_handle_char commands Holds
back-edit s [] shows =
    let none_typed : is_positive s.cmd_buffer_index ≡ false = ground (arith, shows.index) in
    rw none_typed (shows, refl)
back-edit s (c ∷ line) shows =
    let some_typed : is_positive s.cmd_buffer_index ≡ true =
      ground (arith, shows.index, shows.fits) in
    rw some_typed (
      record {
        index = omega (arith, shows.index, shows.fits);
        fits = omega (arith, shows.fits);
        chars = shows.chars.2;
      },
      refl,
    )

type-edit :
    (c : ℕ) (s : Shell) (line : List ℕ)
    → c ≢ 0
    → Shows s line
    → length line < 255
    → Shows
        (record {
          cmd_buffer = store s.cmd_buffer s.cmd_buffer_index c;
          cmd_buffer_index = u32 (s.cmd_buffer_index + 1);
        })
        (c ∷ line)
unfolding Holds
type-edit c s line some_char shows room = record {
  index = omega (arith, shows.index, room);
  fits = omega (arith, room);
  chars = (
    ground (arith, shows.index),
    some_char,
    Holds-store s.cmd_buffer s.cmd_buffer_index c line (omega (arith, shows.index)) shows.chars,
  );
}

shell_handle_char-edit :
    (c : ℕ) (s : Shell) (line : List ℕ)
    → c ≢ 0
    → Shows s line
    → Shows (shell_handle_char c s).0 (edit c line).0
      × (commands (shell_handle_char c s).1 ≡ (edit c line).1)
unfolding shell_handle_char commands
shell_handle_char-edit c s line some_char shows = elim (Bool-cases (c == newline)) [
  | inl enter ↦ rw enter (enter-edit s line shows)
  | inr other ↦ elim (Bool-cases (c == backspace)) [
    | inl back ↦ rw (other, back) (back-edit s line shows)
    | inr plain ↦
        rw (other, plain)
          (elim (Bool-cases (ltb (length line) 255)) [
            | inl room ↦
                let same : has_room s.cmd_buffer_index ≡ true = ground (arith, shows.index) in
                rw (room, same) (type-edit c s line some_char shows (ground arith), refl)
            | inr full ↦
                let same : has_room s.cmd_buffer_index ≡ false =
                  ground (arith, shows.index, shows.fits, full) in
                rw (full, same) (shows, refl)
          ])
  ]
]

-- From a shell that shows a line, and for characters other than 0, the strings that are executed are
-- exactly the lines that the line editor gives out.
pub shell_run-commands :
    (cs : List ℕ) (s : Shell) (line : List ℕ)
    → All (λ c. c ≢ 0) cs
    → Shows s line
    → commands (shell_run cs s).1 ≡ edit_all cs line
unfolding shell_run edit_all commands
shell_run-commands [] s line chars shows = refl
shell_run-commands (c ∷ cs) s line (some_char, chars) shows =
    let (next, out) = shell_handle_char-edit c s line some_char shows in
    let rest = shell_run-commands cs (shell_handle_char c s).0 (edit c line).0 chars next in
    commands-append (shell_handle_char c s).1 (shell_run cs (shell_handle_char c s).0).1
    ∙ (rw (out, rest) refl)
