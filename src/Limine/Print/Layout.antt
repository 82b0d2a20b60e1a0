-- ===== src/Limine/Print/Layout.antt =====
-- `vprint` against the text of its format: what is written, and where it ends.
use orionis_os.Base.{
  ℕ, zero, suc, ◌+◌, ◌-◌, ◌^◌, ◌≤◌, ◌<◌, ◌≡◌, ◌∙◌, ap, sym, refl, arith, false, Bool-cases, List,
  [], ◌∷◌, ◌++◌, inl, inr, ltb, ◌==◌, leb, store, Option, none, some, ℤ, pos, negsuc, if◌then◌else◌,
  length, get_or, length-append, subst,
}
use orionis_os.Base.Digits.{write_digits}
use orionis_os.Base.Printed.{dec_digit, text_from}
use orionis_os.Base.Text.{codes}
use orionis_os.Limine.Print.{
  Buffer, print_buf_max, append, ended, copy_loop, prn_str, prn_char, base_digit, digits_text,
  prn_ui, prn_x, prn_i,
}
use orionis_os.Limine.Print.Expansion.{decimal, hex, signed_text, signed_digits, signed_text_lem}

abbrev pub end_of : Buffer → List ℕ → ℕ
end_of b text =
    if ltb (b.index + length text) print_buf_max then b.index + length text else print_buf_max - 1

-- From a buffer `b` to `b'` the text has been written behind the old index, as far as it fits in front
-- of the last of the 512 bytes; what stood in front of it and outside the buffer is the same.
pub record IsAppended (text : List ℕ) (b b' : Buffer) : Type 0 where
  pub index : b'.index ≡ end_of b text
  pub written : (k : ℕ) → b.index + k < b'.index → b'.bytes (b.index + k) ≡ get_or text k 0
  pub before : (a : ℕ) → a < b.index → b'.bytes a ≡ b.bytes a
  pub outside : (a : ℕ) → print_buf_max ≤ a → b'.bytes a ≡ b.bytes a

get_or-append_left :
    (xs ys : List ℕ) (k : ℕ) → k < length xs → get_or (xs ++ ys) k 0 ≡ get_or xs k 0
get_or-append_left [] ys k lt = absurd (omega arith)
get_or-append_left (x ∷ xs) ys zero lt = refl
get_or-append_left (x ∷ xs) ys (suc k) lt = get_or-append_left xs ys k (omega arith)

get_or-append_right : (xs ys : List ℕ) (k : ℕ) → get_or (xs ++ ys) (length xs + k) 0 ≡ get_or ys k 0
get_or-append_right [] ys k = ap (λ j. get_or ys j 0) (omega arith)
get_or-append_right (x ∷ xs) ys k =
    let shift : suc (length xs) + k ≡ suc (length xs + k) = omega arith in
    rw shift (get_or-append_right xs ys k)

module _ (t t' : List ℕ) (b b1 b2 : Buffer) (lt : b.index < print_buf_max) (h : IsAppended t b b1)
    (h' : IsAppended t' b1 b2) where
  after_written : (k : ℕ) → b.index + k < b2.index → b2.bytes (b.index + k) ≡ get_or (t ++ t') k 0
  after_written k below =
      let end = h.index in
      let end' = h'.index in
      elim (Bool-cases (ltb (b.index + k) b1.index)) [
        | inl first ↦
            let inside : b.index + k < b1.index = ground (arith, first) in
            h'.before (b.index + k) inside
            ∙ h.written k inside
            ∙ sym (get_or-append_left t t' k (ground (arith, end, inside, lt)))
        | inr second ↦
            let behind : b1.index ≤ b.index + k = ground (arith, second) in
            let full : b1.index ≡ b.index + length t = ground (arith, end, end', behind, below) in
            let here : b.index + k ≡ b1.index + (k - length t) = omega (arith, full, behind) in
            let there : k ≡ length t + (k - length t) = omega (arith, full, behind) in
            ap b2.bytes here
            ∙ h'.written (k - length t) (omega (arith, here, below))
            ∙ sym (get_or-append_right t t' (k - length t))
            ∙ ap (λ j. get_or (t ++ t') j 0) (sym there)
      ]

  pub after : IsAppended (t ++ t') b b2
  after =
      let end = h.index in
      let end' = h'.index in
      record {
        index = ground (arith, end, end', length-append t t', lt);
        written = after_written;
        before = λ a low. h'.before a (ground (arith, end, low, lt)) ∙ h.before a low;
        outside = λ a out. h'.outside a out ∙ h.outside a out;
      }

append-IsAppended :
    (c : ℕ) (b : Buffer) → b.index < print_buf_max - 1 → IsAppended (c ∷ []) b (append c b)
append-IsAppended c b lt = record {
  index = ground arith;
  written = λ k below. let here : k ≡ 0 = omega arith in ground (arith, here);
  before = λ a low. ground (arith, low);
  outside = λ a out. ground (arith, out);
}

pub nothing-IsAppended :
    (text : List ℕ) (b : Buffer) → b.index ≡ end_of b text → IsAppended text b b
nothing-IsAppended text b e = record {
  index = e;
  written = λ k below. absurd (omega (arith, below));
  before = λ a low. refl;
  outside = λ a out. refl;
}

copy_loop-IsAppended :
    (cs : List ℕ) (b : Buffer) → b.index < print_buf_max → IsAppended cs b (copy_loop cs b)
unfolding copy_loop
copy_loop-IsAppended [] b lt = nothing-IsAppended [] b (ground arith)
copy_loop-IsAppended (c ∷ cs) b lt = elim (Bool-cases (b.index == print_buf_max - 1)) [
  | inl full ↦ rw full (nothing-IsAppended (c ∷ cs) b (ground (arith, full)))
  | inr free ↦
      let room : b.index < print_buf_max - 1 = ground (arith, free, lt) in
      rw free (
        after (c ∷ []) cs b (append c b) (copy_loop cs (append c b)) lt (append-IsAppended c b room)
          (copy_loop-IsAppended cs (append c b) (omega (arith, room))))
]

ended-IsAppended :
    (text : List ℕ) (b b' : Buffer)
    → b.index < print_buf_max
    → IsAppended text b b'
    → IsAppended text b (ended b')
ended-IsAppended text b b' lt h =
    let end = h.index in
    record {
      index = end;
      written = λ k below.
          let other : (b'.index == b.index + k) ≡ false = ground (arith, below) in
          rw other (h.written k below);
      before = λ a low. ground (arith, low, end, lt, h.before a low);
      outside = λ a out. ground (arith, out, end, lt, h.outside a out);
    }

abbrev pub Writes : List ℕ → (Buffer → Buffer) → Type 0
Writes text f = (b : Buffer) → b.index < print_buf_max → IsAppended text b (f b)

pub prn_str-Writes : (text : List ℕ) → Writes text (prn_str text)
unfolding prn_str
prn_str-Writes text b lt =
    ended-IsAppended text b (copy_loop text b) lt (copy_loop-IsAppended text b lt)

pub prn_char-Writes : (c : ℕ) → Writes (c ∷ []) (prn_char c)
unfolding prn_char
prn_char-Writes c b lt = elim (Bool-cases (ltb b.index (print_buf_max - 1))) [
  | inl free ↦
      rw free
        (ended-IsAppended (c ∷ []) b (append c b) lt (append-IsAppended c b (ground (arith, free))))
  | inr full ↦
      rw full (
        ended-IsAppended (c ∷ []) b b lt (nothing-IsAppended (c ∷ []) b (ground (arith, full, lt))))
]

pub prn_ui-Writes : (x : ℕ) → Writes (decimal x) (prn_ui x)
unfolding prn_ui decimal
prn_ui-Writes x b lt = elim (Bool-cases (x == 0)) [
  | inl none_left ↦ rw none_left (prn_char-Writes b'0' b lt)
  | inr some_left ↦ rw some_left (prn_str-Writes (digits_text 10 dec_digit 20 x) b lt)
]

pub appended-lt : (text : List ℕ) (b b' : Buffer) → IsAppended text b b' → b'.index < print_buf_max
appended-lt text b b' h = let end = h.index in ground (arith, end)

pub prn_x-Writes : (x : ℕ) → Writes (hex x) (prn_x x)
unfolding prn_x hex
prn_x-Writes x b lt = elim (Bool-cases (x == 0)) [
  | inl none_left ↦ rw none_left (prn_str-Writes (codes "0x0") b lt)
  | inr some_left ↦
      let prefix = prn_str-Writes (codes "0x") b lt in
      let b1 = prn_str (codes "0x") b in
      rw some_left (
        after (codes "0x") (digits_text 16 base_digit 16 x) b b1
          (prn_str (digits_text 16 base_digit 16 x) b1) lt prefix
          (prn_str-Writes (digits_text 16 base_digit 16 x) b1
            (appended-lt (codes "0x") b b1 prefix)))
]

-- A number that an `int64_t` holds.
-- What `prn_i` writes, and where it is defined.
abbrev pub Prints : Option (Buffer → Buffer) → Option (List ℕ) → Type 0
Prints none none = Unit
Prints (some f) (some text) = Writes text f
Prints none (some text) = ⊥
Prints (some f) none = ⊥

pub prn_i-Prints : (x : ℤ) → Prints (prn_i x) (signed_text x)
unfolding prn_i signed_text signed_digits
prn_i-Prints (pos x) = λ b lt. elim (Bool-cases (x == 0)) [
  | inl none_left ↦ rw none_left (prn_char-Writes b'0' b lt)
  | inr some_left ↦ rw some_left (prn_str-Writes (digits_text 10 dec_digit 19 x) b lt)
]
prn_i-Prints (negsuc x) = elim (Bool-cases (leb (10 ^ 18) (x + 1))) [
  | inl long ↦ rw long tt
  | inr short ↦
      let start = (write_digits 64 10 dec_digit 19 (x + 1) (λ i. 0)).0 - 1 in
      let buf = store (write_digits 64 10 dec_digit 19 (x + 1) (λ i. 0)).1 start b'-' in
      rw short (
        subst (λ text. Writes text (prn_str (text_from 21 buf start)))
          (signed_text_lem x (ground (arith, short))) (prn_str-Writes (text_from 21 buf start)))
]
