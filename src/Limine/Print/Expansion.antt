-- ===== src/Limine/Print/Expansion.antt =====
-- The text that a format and its arguments stand for.
use orionis_os.Base.{
  ℕ, zero, suc, ◌+◌, ◌-◌, ◌%◌, ◌^◌, ◌<◌, ◌≡◌, ◌≢◌, inl, inr, refl, true, false, arith, ℤ, pos,
  negsuc, Option, none, some, List, [], ◌∷◌, ◌++◌, ltb, leb, ◌==◌, length, take, store, Bool-cases,
  all_below, all_below_sound, if◌then◌else◌,
}
use orionis_os.Base.Digits.{write_digits, write_digits_lem}
use orionis_os.Base.Printed.{text_from, dec_digit, IsText, IsLetter, zero-IsText, loop-IsText}
use orionis_os.Base.Text.{codes}
use orionis_os.Limine.Print.{Arg, str, len, num, int, char, is_int, base_digit, digits_text}

pub data Kind : Type 0 where
  string counted single unknown : Kind
  signed unsigned hexadecimal : ℕ → Kind

abbrev pub kind_of : ℕ → Kind
kind_of c =
    if c == b's'
    then string
    else if c == b'S'
    then counted
    else if c == b'd'
    then signed 32
    else if c == b'u'
    then unsigned 32
    else if c == b'x'
    then hexadecimal 32
    else if c == b'D'
    then signed 64
    else if c == b'U'
    then unsigned 64
    else if c == b'X'
    then hexadecimal 64
    else if c == b'c'
    then single
    else unknown

unfoldable pub decimal : ℕ → List ℕ
decimal x = if x == 0 then b'0' ∷ [] else digits_text 10 dec_digit 20 x

unfoldable pub hex : ℕ → List ℕ
hex x = codes "0x" ++ (if x == 0 then b'0' ∷ [] else digits_text 16 base_digit 16 x)

unfoldable pub signed_digits : ℕ → List ℕ
signed_digits x = if x == 0 then b'0' ∷ [] else digits_text 10 dec_digit 19 x

-- A negative number of more than 18 digits has no text.
unfoldable pub signed_text : ℤ → Option (List ℕ)
signed_text (pos x) = some (signed_digits x)
signed_text (negsuc x) = if leb (10 ^ 18) (x + 1) then none else some (b'-' ∷ signed_digits (x + 1))

abbrev pub string_text : Option (List ℕ) → List ℕ
string_text none = codes "(null)"
string_text (some text) = text

-- The text of a conversion, and the arguments that are left.
abbrev pub piece : Kind → List Arg → Option (List ℕ × List Arg)
piece string (str s ∷ args) = some (string_text s, args)
piece string _ = none
piece counted (str none ∷ len n ∷ args) = some (string_text none, args)
piece counted (str (some text) ∷ len n ∷ args) =
    if ltb (length text) n then none else some (take n text, args)
piece counted _ = none
piece (signed w) (int x ∷ args) =
    if is_int w x
    then elim (signed_text x) [ none ↦ none | some text ↦ some (text, args) ]
    else none
piece (signed w) _ = none
piece (unsigned w) (num x ∷ args) = some (decimal (x % 2 ^ w), args)
piece (unsigned w) _ = none
piece (hexadecimal w) (num x ∷ args) = some (hex (x % 2 ^ w), args)
piece (hexadecimal w) _ = none
piece single (char c ∷ args) = some (c % 2 ^ 8 ∷ [], args)
piece single _ = none
piece unknown args = some (b'?' ∷ [], args)

unfoldable pub expand : List ℕ → List Arg → Option (List ℕ)
expand [] args = some []
expand (c ∷ []) args = if c == b'%' then none else some (c ∷ [])
expand (c ∷ d ∷ fmt) args = elim (c == b'%') [
  | false ↦ elim (expand (d ∷ fmt) args) [ none ↦ none | some text ↦ some (c ∷ text) ]
  | true ↦ elim (piece (kind_of d) args) [
    | none ↦ none
    | some (text, rest) ↦ elim (expand fmt rest) [ none ↦ none | some more ↦ some (text ++ more) ]
  ]
]

-- `decimal` and `hex` print numbers of 64 bits so that they can be read back.
pub decimal-IsText : (x : ℕ) → x < 2 ^ 64 → IsText 10 dec_digit x (decimal x)
unfolding decimal
decimal-IsText x lt = elim (Bool-cases (x == 0)) [
  | inl none_left ↦
      let e : x ≡ 0 = ground (arith, none_left) in rw e (zero-IsText 10 dec_digit (omega arith))
  | inr some_left ↦ rw some_left (
      loop-IsText 10 20 x dec_digit (omega arith) (λ d lt. omega arith) (omega arith) (omega arith))
]

pub signed_digits-IsText : (x : ℕ) → x < 10 ^ 19 → IsText 10 dec_digit x (signed_digits x)
unfolding signed_digits
signed_digits-IsText x lt = elim (Bool-cases (x == 0)) [
  | inl none_left ↦
      let e : x ≡ 0 = ground (arith, none_left) in rw e (zero-IsText 10 dec_digit (omega arith))
  | inr some_left ↦ rw some_left (
      loop-IsText 10 19 x dec_digit (omega arith) (λ d lt. omega arith) (omega arith) (omega arith))
]

letters : all_below 16 (λ d. ltb 0 (base_digit d)) ≡ true
unfolding all_below
letters = refl

base_digit-IsLetter : IsLetter 16 base_digit
base_digit-IsLetter d lt =
    let some_char = all_below_sound 16 d (λ k. ltb 0 (base_digit k)) letters lt in
    λ zero_char. ground (arith, some_char, zero_char)

pub digits_text-IsText :
    (x : ℕ) → x < 2 ^ 64 → IsText 16 base_digit x (digits_text 16 base_digit 16 x)
digits_text-IsText x lt =
    loop-IsText 16 16 x base_digit (omega arith) base_digit-IsLetter (omega arith) (omega arith)

-- A character in front of a text in a buffer.
text_from-store :
    (n i a v : ℕ) (buf : ℕ → ℕ) → a < i → text_from n (store buf a v) i ≡ text_from n buf i
unfolding text_from
text_from-store zero i a v buf lt = refl
text_from-store (suc n) i a v buf lt =
    let other : (a == i) ≡ false = ground (arith, lt) in
    rw (other, text_from-store n (i + 1) a v buf (omega arith)) refl

text_from_push :
    (n i v : ℕ) (buf : ℕ → ℕ)
    → 0 < i
    → v ≢ 0
    → text_from (suc n) (store buf (i - 1) v) (i - 1) ≡ v ∷ text_from n buf i
unfolding text_from
text_from_push n i v buf low ne =
    let same : (i - 1 == i - 1) ≡ true = ground arith in
    let some_char : (v == 0) ≡ false = ground (arith, ne) in
    let next : i - 1 + 1 ≡ i = omega arith in
    rw (same, some_char, next, text_from-store n i (i - 1) v buf (omega arith)) refl

-- `prn_i` puts the sign in front of the digits.
pub signed_text_lem :
    (x : ℕ)
    → x + 1 < 10 ^ 18
    → text_from 21
        (store
          (write_digits 64 10 dec_digit 19 (x + 1) (λ i. 0)).1
          ((write_digits 64 10 dec_digit 19 (x + 1) (λ i. 0)).0 - 1)
          b'-')
        ((write_digits 64 10 dec_digit 19 (x + 1) (λ i. 0)).0 - 1)
      ≡ b'-' ∷ signed_digits (x + 1)
unfolding signed_digits
signed_text_lem x small =
    let w =
      write_digits_lem 10 dec_digit (omega arith) 64 18 19 (x + 1) [] (λ i. 0) (omega arith)
        (omega arith) (omega arith) tt tt in
    let more : (x + 1 == 0) ≡ false = ground arith in
    let near = w.near in
    rw more (
      text_from_push 20 (write_digits 64 10 dec_digit 19 (x + 1) (λ i. 0)).0 b'-'
        (write_digits 64 10 dec_digit 19 (x + 1) (λ i. 0)).1 (omega (arith, near)) (omega arith))
