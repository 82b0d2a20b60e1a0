-- ===== src/Limine/Blib/Input/Editor.antt =====
-- The keys of `gets` one by one, and the whole input.
use orionis_os.Base.{
  ap, ℕ, suc, ◌+◌, ◌-◌, ◌%◌, ◌^◌, ◌≤◌, ◌<◌, ◌≡◌, ◌≢◌, ◌⊎◌, ◌∙◌, refl, arith, true, false, Option,
  some, List, [], ◌∷◌, Bool-cases, inl, inr, ltb, ◌==◌, u8, u32, length, store, if◌then◌else◌,
}
use orionis_os.Kernel.Libc.{strlen}
use orionis_os.Kernel.Libc.Strings.{IsString, strlen-length}
use orionis_os.Limine.Blib.{cursor_left, cursor_right}
use orionis_os.Limine.Blib.Input.{Line, shift_up, key_left, key_right, key_backspace, key_insert}
use orionis_os.Limine.Blib.Input.Editing.{
  joined, IsBefore, IsString-joined, length-joined, IsBefore-same, IsString-up, shift_up_lem,
  shift_down_lem,
}

-- The parts of the line after a key.
abbrev pub back : List ℕ → List ℕ → List ℕ × List ℕ
back [] r = ([], r)
back (c ∷ l) r = (l, c ∷ r)

abbrev pub forward : List ℕ → List ℕ → List ℕ × List ℕ
forward l [] = (l, [])
forward l (c ∷ r) = (c ∷ l, r)

abbrev pub erase : List ℕ → List ℕ → List ℕ × List ℕ
erase [] r = ([], r)
erase (c ∷ l) r = (l, r)

abbrev pub insert : ℕ → ℕ → List ℕ → List ℕ → List ℕ × List ℕ
insert limit c l r = if ltb (length l + length r + 1) limit then (c % 256 ∷ l, r) else (l, r)

unfoldable pub edit : ℕ → ℕ → List ℕ × List ℕ → List ℕ × List ℕ
edit limit c (l, r) =
    if c == cursor_left
    then back l r
    else if c == cursor_right
    then forward l r
    else if c == 8
    then erase l r
    else insert limit c l r

-- The line has these parts, and room for its last byte 0.
pub record Shows (limit : ℕ) (line : Line) (parts : List ℕ × List ℕ) : Type 0 where
  pub cursor : line.i ≡ length parts.0
  pub before : IsBefore line.buf parts.0
  pub behind : IsString line.buf (length parts.0) parts.1
  pub room : length parts.0 + length parts.1 < limit

-- The line becomes one that shows the parts, and no byte from the limit on changes.
abbrev pub Becomes : ℕ → Line → Option Line → List ℕ × List ℕ → Type 0
Becomes limit line o parts =
    (line' : Line) × (o ≡ some line')
    × Shows limit line' parts
    × ((a : ℕ) → limit ≤ a → line'.buf a ≡ line.buf a)

strlen-Shows :
    (limit : ℕ) (line : Line) (parts : List ℕ × List ℕ)
    → Shows limit line parts
    → strlen limit 0 line.buf ≡ some (length parts.0 + length parts.1)
strlen-Shows limit line (l, r) h =
    let len = length-joined l r in
    let room = h.room in
    strlen-length limit 0 line.buf (joined l r) (IsString-joined line.buf l r h.before h.behind)
      (omega (arith, len, room))
    ∙ ap (λ n. some n) len

pub key_left-Becomes :
    (limit : ℕ) (line : Line) (l r : List ℕ)
    → Shows limit line (l, r)
    → Becomes limit line (some (key_left line)) (back l r)
unfolding key_left
key_left-Becomes limit line [] r h =
    let start : (line.i == 0) ≡ true = ground (arith, h.cursor) in
    (line, rw (key_left, start) refl, h, λ a le. refl)
key_left-Becomes limit line (c ∷ l) r h =
    let cursor = h.cursor in
    let room = h.room in
    let (here, some_char, before) = h.before in
    let inside : (line.i == 0) ≡ false = ground (arith, cursor) in
    let next : length l + 1 ≡ suc (length l) = omega arith in
    (
      record line { i = line.i - 1 },
      rw (key_left, inside) refl,
      record {
        cursor = omega (arith, cursor);
        before = before;
        behind = (here, some_char, rw next h.behind);
        room = omega (arith, room);
      },
      λ a le. refl,
    )

pub key_right-Becomes :
    (limit : ℕ) (line : Line) (l r : List ℕ)
    → Shows limit line (l, r)
    → Becomes limit line (key_right limit line) (forward l r)
unfolding key_right
key_right-Becomes limit line l [] h =
    let cursor = h.cursor in
    let end : ltb line.i (length l + 0) ≡ false = ground (arith, cursor) in
    (line, rw (key_right, strlen-Shows limit line (l, []) h, end) refl, h, λ a le. refl)
key_right-Becomes limit line l (c ∷ r) h =
    let cursor = h.cursor in
    let room = h.room in
    let (here, some_char, behind) = h.behind in
    let inside : ltb line.i (length l + suc (length r)) ≡ true = ground (arith, cursor) in
    let next : suc (length l) ≡ length l + 1 = omega arith in
    (
      record line { i = line.i + 1 },
      rw (key_right, strlen-Shows limit line (l, c ∷ r) h, inside) refl,
      record {
        cursor = omega (arith, cursor);
        before = (here, some_char, h.before);
        behind = rw next behind;
        room = omega (arith, room);
      },
      λ a le. refl,
    )

pub key_backspace-Becomes :
    (limit : ℕ) (line : Line) (l r : List ℕ)
    → Shows limit line (l, r)
    → Becomes limit line (key_backspace limit line) (erase l r)
unfolding key_backspace
key_backspace-Becomes limit line [] r h =
    let start : (line.i == 0) ≡ true = ground (arith, h.cursor) in
    (line, rw (key_backspace, start) refl, h, λ a le. refl)
key_backspace-Becomes limit line (c ∷ l) r h =
    let cursor = h.cursor in
    let room = h.room in
    let (here, some_char, before) = h.before in
    let inside : (line.i == 0) ≡ false = ground (arith, cursor) in
    let next : length l + 1 ≡ suc (length l) = omega arith in
    let place : line.i - 1 ≡ length l = omega (arith, cursor) in
    let (buf, e, string, others) =
      shift_down_lem limit (length l) r line.buf (omega (arith, room)) (rw next h.behind) in
    (
      record { buf = buf; i = length l },
      rw (key_backspace, inside, place, e, place) refl,
      record {
        cursor = refl;
        before = IsBefore-same line.buf buf l (λ a lt. others a (inl lt)) before;
        behind = string;
        room = omega (arith, room);
      },
      λ a le. others a (omega (arith, le, room)),
    )

key_insert-taken :
    (limit c : ℕ) (line : Line) (l r : List ℕ) (buf : ℕ → ℕ)
    → limit < 2 ^ 32
    → c % 256 ≢ 0
    → Shows limit line (l, r)
    → length l + length r + 1 < limit
    → shift_up (length l + length r) (length l) line.buf ≡ some buf
    → ((a : ℕ) → length l ≤ a → a ≤ length l + length r → buf (a + 1) ≡ line.buf a)
    → ((a : ℕ) → (a ≤ length l) ⊎ (length l + length r + 1 < a) → buf a ≡ line.buf a)
    → Becomes limit line (key_insert limit c line) (c % 256 ∷ l, r)
unfolding key_insert
key_insert-taken limit c line l r buf word some_char h fit e moved others =
    let cursor = h.cursor in
    let last : u32 (limit + 2 ^ 32 - 1) ≡ limit - 1 = omega (arith, word, fit) in
    let taken : ltb (length l + length r) (limit - 1) ≡ true = ground (arith, fit) in
    (
      record { buf = store buf (length l) (u8 c); i = length l + 1 },
      rw (key_insert, strlen-Shows limit line (l, r) h, last, taken, cursor, e, cursor) refl,
      record {
        cursor = omega arith;
        before = (
          ground arith,
          some_char,
          IsBefore-same line.buf (store buf (length l) (u8 c)) l
              (λ a lt. ground (arith, lt, others a (inl (omega (arith, lt))))) h.before,
        );
        behind =
            IsString-up line.buf (store buf (length l) (u8 c)) (length l) (suc (length l)) r
              (omega arith) (λ a low high. ground (arith, low, high, moved a low high)) h.behind;
        room = omega (arith, fit);
      },
      λ a le. ground (arith, le, fit, others a (inr (omega (arith, le, fit)))),
    )

pub key_insert-Becomes :
    (limit c : ℕ) (line : Line) (l r : List ℕ)
    → limit < 2 ^ 32
    → c % 256 ≢ 0
    → Shows limit line (l, r)
    → Becomes limit line (key_insert limit c line) (insert limit c l r)
unfolding key_insert
key_insert-Becomes limit c line l r word some_char h =
    let room = h.room in
    let last : u32 (limit + 2 ^ 32 - 1) ≡ limit - 1 = omega (arith, word, room) in
    elim (Bool-cases (ltb (length l + length r + 1) limit)) [
      | inr full ↦
          let refused : ltb (length l + length r) (limit - 1) ≡ false =
            ground (arith, full, room) in
          (
            line,
            rw (key_insert, strlen-Shows limit line (l, r) h, last, refused) refl,
            rw full h,
            λ a le. refl,
          )
      | inl fits ↦
          let (buf, e, moved, others) =
            shift_up_lem (length l + length r) (length l) line.buf (omega arith) in
          rw fits (
            key_insert-taken limit c line l r buf word some_char h (ground (arith, fits)) e moved
              others)
    ]
