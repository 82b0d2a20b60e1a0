-- ===== src/Limine/Blib/Input.antt =====
-- `gets` of limine/stage2/lib/blib.c. The buffer is a memory of bytes from 0 on, and `none` is a loop that
-- runs over the end of it, or a wait for a key when none is left. Keys are what `getchar` returns. The text
-- to start with is a list; what is written to the terminal is left out.
pub mod Editing
pub mod Editor
pub mod Runs
use orionis_os.Base.{
  ℕ, zero, suc, ◌+◌, ◌-◌, ◌^◌, true, false, Option, none, some, List, [], ◌∷◌, ltb, ◌==◌, u8, u32,
  length, store, if◌then◌else◌,
}
use orionis_os.Kernel.Libc.{strlen}
use orionis_os.Limine.Blib.{cursor_left, cursor_right}

pub record Line : Type 0 where
  pub buf : ℕ → ℕ
  pub i : ℕ

-- The loop behind a backspace, of at most `n` rounds.
unfoldable pub shift_down : ℕ → ℕ → (ℕ → ℕ) → Option (ℕ → ℕ)
shift_down zero j buf = none
shift_down (suc n) j buf =
    let buf' = store buf j (buf (j + 1)) in
    let rest = shift_down n (j + 1) buf' in if buf' j == 0 then some buf' else rest

-- The loop in front of an insertion, from `j` down to `i`.
unfoldable pub shift_up : ℕ → ℕ → (ℕ → ℕ) → Option (ℕ → ℕ)
shift_up zero i buf = if i == 0 then some (store buf 1 (buf 0)) else none
shift_up (suc j) i buf =
    let buf' = store buf (suc j + 1) (buf (suc j)) in
    let rest = shift_up j i buf' in if suc j == i then some buf' else rest

unfoldable pub key_left : Line → Line
key_left line = if line.i == 0 then line else record line { i = line.i - 1 }

unfoldable pub key_right : ℕ → Line → Option Line
key_right limit line = elim (strlen limit 0 line.buf) [
  | none ↦ none
  | some n ↦ some (if ltb line.i n then record line { i = line.i + 1 } else line)
]

unfoldable pub key_backspace : ℕ → Line → Option Line
key_backspace limit line = elim (line.i == 0) [
  | true ↦ some line
  | false ↦ elim (shift_down limit (line.i - 1) line.buf) [
    | none ↦ none
    | some buf ↦ some (record { buf = buf; i = line.i - 1 })
  ]
]

unfoldable pub key_insert : ℕ → ℕ → Line → Option Line
key_insert limit c line = elim (strlen limit 0 line.buf) [
  | none ↦ none
  | some n ↦ elim (ltb n (u32 (limit + 2 ^ 32 - 1))) [
    | false ↦ some line
    | true ↦ elim (shift_up n line.i line.buf) [
      | none ↦ none
      | some buf ↦ some (record { buf = store buf line.i (u8 c); i = line.i + 1 })
    ]
  ]
]

-- Any key but the return key.
unfoldable pub gets_key : ℕ → ℕ → Line → Option Line
gets_key limit c line =
    if c == cursor_left
    then some (key_left line)
    else if c == cursor_right
    then key_right limit line
    else if c == 8
    then key_backspace limit line
    else key_insert limit c line

unfoldable pub gets_loop : ℕ → List ℕ → Line → Option Line
gets_loop limit [] line = none
gets_loop limit (c ∷ keys) line = elim (c == b'\r') [
  | true ↦ some line
  | false ↦ elim (gets_key limit c line) [ none ↦ none | some line' ↦ gets_loop limit keys line' ]
]

-- The text and the byte 0 from index `j` on.
unfoldable pub put_text : ℕ → List ℕ → (ℕ → ℕ) → ℕ → ℕ
put_text j [] buf = store buf j 0
put_text j (c ∷ s) buf = put_text (j + 1) s (store buf j c)

unfoldable pub gets : ℕ → List ℕ → List ℕ → (ℕ → ℕ) → Option Line
gets limit orig_str keys buf =
    gets_loop limit keys (record { buf = put_text 0 orig_str buf; i = length orig_str })
