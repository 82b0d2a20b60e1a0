-- ===== src/Limine/Config/Values.antt =====
-- `config_get_value` against the lines of the text.
use orionis_os.Base.{
  ℕ, zero, suc, ◌-◌, ◌≡◌, ◌≢◌, ◌∙◌, ap, refl, arith, true, false, Bool, Bool-cases, Option-cases,
  inl, inr, Option, none, some, List, [], ◌∷◌, ◌++◌, All, ◌==◌, take, get_elem?, if◌then◌else◌,
}
use orionis_os.Limine.Config.{separator, after_key, find_value, line_of, config_get_value}

-- The text of the lines, each with its end.
abbrev pub text_of : List (List ℕ) → List ℕ
text_of [] = []
text_of (l ∷ ls) = l ++ separator ∷ text_of ls

abbrev pub cons_some : Option (List ℕ) → List (List ℕ) → List (List ℕ)
cons_some none vs = vs
cons_some (some v) vs = v ∷ vs

-- The values of a key, in the order of the lines.
pub values : List ℕ → List (List ℕ) → List (List ℕ)
values key [] = []
values key (l ∷ ls) = cons_some (after_key key l) (values key ls)

abbrev pub OneLine : List ℕ → Type 0
OneLine = All (λ c. c ≢ separator)

-- A key that is found in a line is found in the text, and only then.
abbrev followed : Option (List ℕ) → List ℕ → Option (List ℕ)
followed none rest = none
followed (some v) rest = some (v ++ separator ∷ rest)

after_key-line :
    (key l rest : List ℕ)
    → OneLine key
    → after_key key (l ++ separator ∷ rest) ≡ followed (after_key key l) rest
unfolding after_key
after_key-line [] [] rest h = refl
after_key-line [] (c ∷ l) rest h = elim (Bool-cases (c == b'=')) [
  | inl found ↦ rw (after_key, found) refl
  | inr other ↦ rw (after_key, other) refl
]
after_key-line (k ∷ key) [] rest (ne, h) =
    let other : (separator == k) ≡ false = ground (arith, ne) in rw (after_key, other) refl
after_key-line (k ∷ key) (c ∷ l) rest (ne, h) = elim (Bool-cases (c == k)) [
  | inl found ↦ rw (after_key, found) (after_key-line key l rest h)
  | inr other ↦ rw (after_key, other) refl
]

-- In the middle of a line nothing is found.
inside :
    (key : List ℕ) (index c : ℕ) (s : List ℕ)
    → find_value key index false (c ∷ s) ≡ find_value key index (c == separator) s
unfolding find_value
inside key index c s = elim (Option-cases (after_key key (c ∷ s))) [
  | inl e ↦ rw (find_value, e) refl
  | inr (v, e) ↦ rw (find_value, e) refl
]

rest_of_line :
    (key : List ℕ) (index : ℕ) (l rest : List ℕ)
    → OneLine l
    → find_value key index false (l ++ separator ∷ rest) ≡ find_value key index true rest
rest_of_line key index [] rest h = inside key index separator rest
rest_of_line key index (c ∷ l) rest (ne, h) =
    let other : (c == separator) ≡ false = ground (arith, ne) in
    inside key index c (l ++ separator ∷ rest)
    ∙ ap (λ b. find_value key index b (l ++ separator ∷ rest)) other
    ∙ rest_of_line key index l rest h

line_of_lem : (v rest : List ℕ) → OneLine v → line_of (v ++ separator ∷ rest) ≡ v
unfolding line_of
line_of_lem [] rest h = refl
line_of_lem (c ∷ v) rest (ne, h) =
    let other : (c == separator) ≡ false = ground (arith, ne) in
    rw (line_of, other, line_of_lem v rest h) refl

abbrev OneLineIf : Option (List ℕ) → Type 0
OneLineIf none = Unit
OneLineIf (some v) = OneLine v

if-OneLine : (t : Bool) (o : Option (List ℕ)) → OneLineIf o → OneLineIf (if t then o else none)
if-OneLine true o h = h
if-OneLine false o h = tt

after_key-OneLine : (key l : List ℕ) → OneLine l → OneLineIf (after_key key l)
unfolding after_key
after_key-OneLine [] [] h = tt
after_key-OneLine (k ∷ key) [] h = tt
after_key-OneLine [] (c ∷ l) (ne, h) = if-OneLine (c == b'=') (some l) h
after_key-OneLine (k ∷ key) (c ∷ l) (ne, h) =
    if-OneLine (c == k) (after_key key l) (after_key-OneLine key l h)

abbrev first_line : Option (List ℕ) → Option (List ℕ)
first_line none = none
first_line (some s) = some (line_of s)

-- One line, on the result of `after_key`.
line-values :
    (key : List ℕ) (index c : ℕ) (l rest : List ℕ) (vs : List (List ℕ)) (o : Option (List ℕ))
    → OneLine (c ∷ l)
    → after_key key (c ∷ l ++ separator ∷ rest) ≡ followed o rest
    → OneLineIf o
    → ((i : ℕ) → first_line (find_value key i true rest) ≡ get_elem? vs i)
    → first_line (find_value key index true (c ∷ l ++ separator ∷ rest))
      ≡ get_elem? (cons_some o vs) index
unfolding find_value
line-values key index c l rest vs none (ne, h) e one ih =
    let other : (c == separator) ≡ false = ground (arith, ne) in
    rw (find_value, e, other, rest_of_line key index l rest h) (ih index)
line-values key zero c l rest vs (some v) (ne, h) e one ih =
    rw (find_value, e, line_of_lem v rest one) refl
line-values key (suc index) c l rest vs (some v) (ne, h) e one ih =
    let other : (c == separator) ≡ false = ground (arith, ne) in
    let more : (suc index == 0) ≡ false = ground arith in
    let next : suc index - 1 ≡ index = omega arith in
    rw (find_value, e, more, next, other, rest_of_line key index l rest h) (ih index)

after_key-empty : (key : List ℕ) → after_key key [] ≡ none
unfolding after_key
after_key-empty [] = refl
after_key-empty (k ∷ key) = refl

find_value-values :
    (key : List ℕ) (index : ℕ) (ls : List (List ℕ))
    → OneLine key
    → All OneLine ls
    → first_line (find_value key index true (text_of ls)) ≡ get_elem? (values key ls) index
unfolding find_value values
find_value-values key index [] hk h = refl
find_value-values key index ([] ∷ ls) hk (one, h) =
    let nothing = after_key-empty key in
    let e = after_key-line key [] (text_of ls) hk ∙ ap (λ o. followed o (text_of ls)) nothing in
    rw (find_value, e, nothing) (find_value-values key index ls hk h)
find_value-values key index ((c ∷ l) ∷ ls) hk (one, h) =
    line-values key index c l (text_of ls) (values key ls) (after_key key (c ∷ l)) one
      (after_key-line key (c ∷ l) (text_of ls) hk) (after_key-OneLine key (c ∷ l) one)
      (λ i. find_value-values key i ls hk h)

abbrev pub cut : ℕ → Option (List ℕ) → Option (List ℕ)
cut limit none = none
cut limit (some v) = some (take (limit - 1) v)

cut-first_line :
    (limit : ℕ) (o : Option (List ℕ))
    → elim o [ none ↦ none | some v ↦ some (take (limit - 1) (line_of v)) ]
      ≡ cut limit (first_line o)
cut-first_line limit none = refl
cut-first_line limit (some v) = refl

-- In a text of lines, for a buffer that is not empty and a key without a line break,
-- `config_get_value` finds what stands behind the key and an equals sign in the line with the given index
-- among the lines that begin with these, cut to the room in the buffer, and nothing where there are not
-- so many such lines.
pub config_get_value-values :
    (index limit : ℕ) (key : List ℕ) (ls : List (List ℕ))
    → limit ≢ 0
    → OneLine key
    → All OneLine ls
    → config_get_value index limit key (text_of ls) ≡ cut limit (get_elem? (values key ls) index)
unfolding config_get_value
config_get_value-values index limit key ls some_room hk h =
    let room : (limit == 0) ≡ false = ground (arith, some_room) in
    rw (config_get_value, room)
      (cut-first_line limit (find_value key index true (text_of ls))
        ∙ ap (cut limit) (find_value-values key index ls hk h))
