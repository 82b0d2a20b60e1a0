-- ===== src/Limine/Blib/Input/Runs.antt =====
-- The whole input of `gets`.
use orionis_os.Base.{
  ap, ℕ, suc, ◌+◌, ◌%◌, ◌^◌, ◌≤◌, ◌<◌, ◌≡◌, ◌≢◌, ◌∙◌, sym, refl, arith, false, some, List, [], ◌∷◌,
  ◌++◌, All, Bool-cases, inl, inr, ◌==◌, length, store,
}
use orionis_os.Kernel.Libc.Strings.{IsString}
use orionis_os.Limine.Blib.{cursor_left, cursor_right}
use orionis_os.Limine.Blib.Input.{Line, gets_key, gets_loop, put_text, gets}
use orionis_os.Limine.Blib.Input.Editing.{joined, IsBefore, IsString-joined, IsBefore-same}
use orionis_os.Limine.Blib.Input.Editor.{
  edit, Shows, Becomes, key_left-Becomes, key_right-Becomes, key_backspace-Becomes,
  key_insert-Becomes,
}

gets_key-Becomes :
    (limit c : ℕ) (line : Line) (parts : List ℕ × List ℕ)
    → limit < 2 ^ 32
    → c % 256 ≢ 0
    → Shows limit line parts
    → Becomes limit line (gets_key limit c line) (edit limit c parts)
unfolding gets_key edit
gets_key-Becomes limit c line (l, r) word some_char h = elim (Bool-cases (c == cursor_left)) [
  | inl left ↦ rw (gets_key, edit, left) (key_left-Becomes limit line l r h)
  | inr not_left ↦ elim (Bool-cases (c == cursor_right)) [
    | inl right ↦ rw (gets_key, edit, not_left, right) (key_right-Becomes limit line l r h)
    | inr not_right ↦ elim (Bool-cases (c == 8)) [
      | inl erased ↦
          rw (gets_key, edit, not_left, not_right, erased) (key_backspace-Becomes limit line l r h)
      | inr typed ↦
          rw (gets_key, edit, not_left, not_right, typed)
            (key_insert-Becomes limit c line l r word some_char h)
    ]
  ]
]

-- The parts of the line after the keys.
unfoldable pub edits : ℕ → List ℕ → List ℕ × List ℕ → List ℕ × List ℕ
edits limit [] parts = parts
edits limit (c ∷ keys) parts = edits limit keys (edit limit c parts)

-- A key that is not the return key and whose character is not the byte 0.
abbrev pub IsKey : ℕ → Type 0
IsKey c = (c ≢ b'\r') × (c % 256 ≢ 0)

gets_loop-Becomes :
    (limit : ℕ) (keys rest : List ℕ) (line : Line) (parts : List ℕ × List ℕ)
    → limit < 2 ^ 32
    → All IsKey keys
    → Shows limit line parts
    → Becomes limit line (gets_loop limit (keys ++ b'\r' ∷ rest) line) (edits limit keys parts)
unfolding gets_loop edits
gets_loop-Becomes limit [] rest line parts word keys h = (line, refl, h, λ a le. refl)
gets_loop-Becomes limit (c ∷ keys) rest line parts word ((going, some_char), others) h =
    let not_return : (c == b'\r') ≡ false = ground (arith, going) in
    let (line', e, h', same) = gets_key-Becomes limit c line parts word some_char h in
    let (line2, e2, h2, same2) =
      gets_loop-Becomes limit keys rest line' (edit limit c parts) word others h' in
    (line2, rw (gets_loop, not_return, e) e2, h2, λ a le. same2 a le ∙ same a le)

put_text-IsBefore :
    (s l : List ℕ) (j : ℕ) (buf : ℕ → ℕ)
    → j ≡ length l
    → All (λ c. c ≢ 0) s
    → IsBefore buf l
    → IsBefore (put_text j s buf) (joined s l)
      × (length (joined s l) ≡ j + length s)
      × (put_text j s buf (j + length s) ≡ 0)
      × ((a : ℕ) → j + length s < a → put_text j s buf a ≡ buf a)
unfolding put_text joined
put_text-IsBefore [] l j buf e h before = (
  IsBefore-same buf (store buf j 0) l (λ a lt. ground (arith, lt, e)) before,
  omega (arith, e),
  ground arith,
  λ a lt. ground (arith, lt),
)
put_text-IsBefore (c ∷ s) l j buf e (some_char, h) before =
    let (before', len, end, others) =
      put_text-IsBefore s (c ∷ l) (j + 1) (store buf j c) (omega (arith, e)) h (
        ground (arith, e),
        some_char,
        IsBefore-same buf (store buf j c) l (λ a lt. ground (arith, lt, e)) before,
      ) in
    let next : j + 1 + length s ≡ j + suc (length s) = omega arith in
    (
      before',
      omega (arith, len),
      sym (ap (put_text (j + 1) s (store buf j c)) next) ∙ end,
      λ a lt. ground (arith, lt, others a (omega (arith, lt))),
    )

-- In a buffer of `limit` bytes with room for the text to start with, and when no key gives the byte 0,
-- `gets` returns at the return key; the buffer then has the text that an editor of a line with less than
-- `limit` characters has after these keys, from a cursor behind the text, and no byte from `limit` on
-- changes.
pub gets-edits :
    (limit : ℕ) (orig_str keys rest : List ℕ) (buf : ℕ → ℕ)
    → length orig_str < limit
    → limit < 2 ^ 32
    → All (λ c. c ≢ 0) orig_str
    → All IsKey keys
    → let (l, r) = edits limit keys (joined orig_str [], []) in
      (line : Line) × (gets limit orig_str (keys ++ b'\r' ∷ rest) buf ≡ some line)
      × IsString line.buf 0 (joined l r)
      × (line.i ≡ length l)
      × (length l + length r < limit)
      × ((a : ℕ) → limit ≤ a → line.buf a ≡ buf a)
unfolding gets
gets-edits limit orig_str keys rest buf room word texts typed =
    let (before, len, end, others) = put_text-IsBefore orig_str [] 0 buf (omega arith) texts tt in
    let (line, e, h, same) =
      gets_loop-Becomes limit keys rest
        (record { buf = put_text 0 orig_str buf; i = length orig_str }) (joined orig_str [], [])
        word typed
        (record {
          cursor = omega (arith, len);
          before = before;
          behind = ap (put_text 0 orig_str buf) len ∙ end;
          room = omega (arith, len, room);
        }) in
    let (l, r) = edits limit keys (joined orig_str [], []) in
    (
      line,
      e,
      IsString-joined line.buf l r h.before h.behind,
      h.cursor,
      h.room,
      λ a le. same a le ∙ others a (omega (arith, le, room)),
    )
