-- ===== src/Limine/Print/Conversions.antt =====
-- `vprint` does what the text of its format says.
use orionis_os.Base.{
  Bool, ℕ, ◌%◌, ◌^◌, ◌<◌, ◌≡◌, refl, arith, true, false, Bool-cases, Option, none, some, List, [],
  ◌∷◌, ◌++◌, inl, inr, ltb, ◌==◌, if◌then◌else◌, length, take, subst,
}
use orionis_os.Limine.Print.{
  Buffer, Arg, str, len, num, int, char, print_buf_max, prn_str, prn_char, prn_ui, prn_x, take_str,
  take_nstr, take_num, take_int, take_char, is_int, prn_i, conversion, vprint_loop, vprint,
}
use orionis_os.Limine.Print.Expansion.{
  Kind, string, counted, signed, single, unsigned, hexadecimal, kind_of, signed_text, piece, expand,
}
use orionis_os.Limine.Print.Layout.{
  IsAppended, after, Writes, prn_str-Writes, prn_char-Writes, prn_ui-Writes, prn_x-Writes, Prints,
  prn_i-Prints, appended-lt, nothing-IsAppended,
}

-- A conversion of the code and one of the specification.
abbrev Converts : Option ((Buffer → Buffer) × List Arg) → Option (List ℕ × List Arg) → Type 0
Converts none none = Unit
Converts (some (f, args)) (some (text, args')) = (args ≡ args') × Writes text f
Converts none (some p) = ⊥
Converts (some p) none = ⊥

if-Converts :
    (t : Bool) (x y : Option ((Buffer → Buffer) × List Arg)) (k k' : Kind) (args : List Arg)
    → Converts x (piece k args)
    → Converts y (piece k' args)
    → Converts (if t then x else y) (piece (if t then k else k') args)
if-Converts true x y k k' args hx hy = hx
if-Converts false x y k k' args hx hy = hy

take_str-Converts : (args : List Arg) → Converts (take_str args) (piece string args)
take_str-Converts [] = tt
take_str-Converts (str none ∷ args) = (refl, prn_str-Writes _)
take_str-Converts (str (some text) ∷ args) = (refl, prn_str-Writes text)
take_str-Converts (len n ∷ args) = tt
take_str-Converts (num x ∷ args) = tt
take_str-Converts (int x ∷ args) = tt
take_str-Converts (char c ∷ args) = tt

counted-Converts :
    (t : Bool) (text : List ℕ) (args : List Arg)
    → Converts
        (if t then none else some (prn_str text, args))
        (if t then none else some (text, args))
counted-Converts true text args = tt
counted-Converts false text args = (refl, prn_str-Writes text)

take_nstr-Converts : (args : List Arg) → Converts (take_nstr args) (piece counted args)
take_nstr-Converts [] = tt
take_nstr-Converts (str none ∷ []) = tt
take_nstr-Converts (str none ∷ str s ∷ args) = tt
take_nstr-Converts (str none ∷ len n ∷ args) = (refl, prn_str-Writes _)
take_nstr-Converts (str none ∷ num x ∷ args) = tt
take_nstr-Converts (str none ∷ int x ∷ args) = tt
take_nstr-Converts (str none ∷ char c ∷ args) = tt
take_nstr-Converts (str (some text) ∷ []) = tt
take_nstr-Converts (str (some text) ∷ str s ∷ args) = tt
take_nstr-Converts (str (some text) ∷ len n ∷ args) =
    counted-Converts (ltb (length text) n) (take n text) args
take_nstr-Converts (str (some text) ∷ num x ∷ args) = tt
take_nstr-Converts (str (some text) ∷ int x ∷ args) = tt
take_nstr-Converts (str (some text) ∷ char c ∷ args) = tt
take_nstr-Converts (len n ∷ args) = tt
take_nstr-Converts (num x ∷ args) = tt
take_nstr-Converts (int x ∷ args) = tt
take_nstr-Converts (char c ∷ args) = tt

take_ui-Converts :
    (w : ℕ) (args : List Arg)
    → Converts (take_num (λ x. prn_ui (x % 2 ^ w)) args) (piece (unsigned w) args)
take_ui-Converts w [] = tt
take_ui-Converts w (str s ∷ args) = tt
take_ui-Converts w (len n ∷ args) = tt
take_ui-Converts w (num x ∷ args) = (refl, prn_ui-Writes (x % 2 ^ w))
take_ui-Converts w (int x ∷ args) = tt
take_ui-Converts w (char c ∷ args) = tt

take_x-Converts :
    (w : ℕ) (args : List Arg)
    → Converts (take_num (λ x. prn_x (x % 2 ^ w)) args) (piece (hexadecimal w) args)
take_x-Converts w [] = tt
take_x-Converts w (str s ∷ args) = tt
take_x-Converts w (len n ∷ args) = tt
take_x-Converts w (num x ∷ args) = (refl, prn_x-Writes (x % 2 ^ w))
take_x-Converts w (int x ∷ args) = tt
take_x-Converts w (char c ∷ args) = tt

int-Converts :
    (t : Bool) (o : Option (Buffer → Buffer)) (e : Option (List ℕ)) (args : List Arg)
    → Prints o e
    → Converts
        (if t then elim o [ none ↦ none | some f ↦ some (f, args) ] else none)
        (if t then elim e [ none ↦ none | some text ↦ some (text, args) ] else none)
int-Converts false o e args prints = tt
int-Converts true none none args prints = tt
int-Converts true (some f) (some text) args prints = (refl, prints)
int-Converts true none (some text) args prints = elim prints [ ]
int-Converts true (some f) none args prints = elim prints [ ]

take_int-Converts : (w : ℕ) (args : List Arg) → Converts (take_int w args) (piece (signed w) args)
take_int-Converts w [] = tt
take_int-Converts w (str s ∷ args) = tt
take_int-Converts w (len n ∷ args) = tt
take_int-Converts w (num x ∷ args) = tt
take_int-Converts w (int x ∷ args) =
    int-Converts (is_int w x) (prn_i x) (signed_text x) args (prn_i-Prints x)
take_int-Converts w (char c ∷ args) = tt

take_char-Converts : (args : List Arg) → Converts (take_char args) (piece single args)
take_char-Converts [] = tt
take_char-Converts (str s ∷ args) = tt
take_char-Converts (len n ∷ args) = tt
take_char-Converts (num x ∷ args) = tt
take_char-Converts (int x ∷ args) = tt
take_char-Converts (char c ∷ args) = (refl, prn_char-Writes (c % 2 ^ 8))

conversion-Converts :
    (c : ℕ) (args : List Arg) → Converts (conversion c args) (piece (kind_of c) args)
unfolding conversion
conversion-Converts c args = if-Converts (c == b's') _ _ _ _ args (take_str-Converts args) (
    if-Converts (c == b'S') _ _ _ _ args (take_nstr-Converts args) (
      if-Converts (c == b'd') _ _ _ _ args (take_int-Converts 32 args) (
        if-Converts (c == b'u') _ _ _ _ args (take_ui-Converts 32 args) (
          if-Converts (c == b'x') _ _ _ _ args (take_x-Converts 32 args) (
            if-Converts (c == b'D') _ _ _ _ args (take_int-Converts 64 args) (
              if-Converts (c == b'U') _ _ _ _ args (take_ui-Converts 64 args) (
                if-Converts (c == b'X') _ _ _ _ args (take_x-Converts 64 args) (
                  if-Converts (c == b'c') _ _ _ _ args (take_char-Converts args)
                    (refl, prn_char-Writes b'?')))))))))

-- A buffer behind `b` and the text that is to stand there; where one is undefined, so is the other.
abbrev pub Agrees : Buffer → Option Buffer → Option (List ℕ) → Type 0
Agrees b none none = Unit
Agrees b (some b') (some text) = IsAppended text b b'
Agrees b none (some text) = ⊥
Agrees b (some b') none = ⊥

Agrees-after :
    (t : List ℕ) (b b1 : Buffer) (o : Option Buffer) (e : Option (List ℕ))
    → b.index < print_buf_max
    → IsAppended t b b1
    → Agrees b1 o e
    → Agrees b o (elim e [ none ↦ none | some text ↦ some (t ++ text) ])
Agrees-after t b b1 none none lt h r = tt
Agrees-after t b b1 (some b') (some text) lt h r = after t text b b1 b' lt h r
Agrees-after t b b1 none (some text) lt h r = elim r [ ]
Agrees-after t b b1 (some b') none lt h r = elim r [ ]

convert-Agrees :
    (o : Option ((Buffer → Buffer) × List Arg)) (p : Option (List ℕ × List Arg))
    (go : List Arg → Buffer → Option Buffer) (spec : List Arg → Option (List ℕ)) (b : Buffer)
    → b.index < print_buf_max
    → Converts o p
    → ((args : List Arg) (b1 : Buffer)
        → b1.index < print_buf_max
        → Agrees b1 (go args b1) (spec args))
    → Agrees b
        (elim o [ none ↦ none | some (convert, args) ↦ go args (convert b) ])
        (elim p [
          | none ↦ none
          | some (text, rest) ↦ elim (spec rest) [ none ↦ none | some more ↦ some (text ++ more) ]
        ])
convert-Agrees none none go spec b lt h rest = tt
convert-Agrees (some (f, args)) (some (text, args')) go spec b lt (same, writes) rest =
    Agrees-after text b (f b) (go args (f b)) (spec args') lt (writes b lt) (
      subst (λ a. Agrees (f b) (go args (f b)) (spec a)) same
        (rest args (f b) (appended-lt text b (f b) (writes b lt))))
convert-Agrees none (some p) go spec b lt h rest = elim h [ ]
convert-Agrees (some p) none go spec b lt h rest = elim h [ ]

vprint_loop-Agrees :
    (fmt : List ℕ) (args : List Arg) (b : Buffer)
    → b.index < print_buf_max
    → Agrees b (vprint_loop fmt args b) (expand fmt args)
unfolding vprint_loop expand
vprint_loop-Agrees [] args b lt = nothing-IsAppended [] b (ground (arith, lt))
vprint_loop-Agrees (c ∷ []) args b lt = elim (Bool-cases (c == b'%')) [
  | inl percent ↦ rw (Agrees, vprint_loop, expand, percent) tt
  | inr plain ↦ rw (Agrees, vprint_loop, expand, plain) (prn_char-Writes c b lt)
]
vprint_loop-Agrees (c ∷ d ∷ fmt) args b lt = elim (Bool-cases (c == b'%')) [
  | inl percent ↦
      rw (Agrees, vprint_loop, expand, percent)
        (convert-Agrees (conversion d args) (piece (kind_of d) args) (vprint_loop fmt) (expand fmt)
          b lt (conversion-Converts d args) (vprint_loop-Agrees fmt))
  | inr plain ↦
      let step = prn_char-Writes c b lt in
      rw (Agrees, vprint_loop, expand, plain)
        (Agrees-after (c ∷ []) b (prn_char c b) (vprint_loop (d ∷ fmt) args (prn_char c b))
          (expand (d ∷ fmt) args) lt step
          (vprint_loop-Agrees (d ∷ fmt) args (prn_char c b)
            (appended-lt (c ∷ []) b (prn_char c b) step)))
]

-- `vprint` is defined exactly where the text of its format is, which leaves out arguments that do not fit
-- the format and negative numbers of more than 18 digits. Then it writes that text from the start of its buffer on, up to 511 bytes of it, stops behind it and
-- changes no byte outside the 512 bytes of the buffer.
pub vprint-Agrees :
    (fmt : List ℕ) (args : List Arg) (print_buf : ℕ → ℕ)
    → Agrees (record { bytes = print_buf; index = 0 }) (vprint fmt args print_buf) (expand fmt args)
unfolding vprint
vprint-Agrees fmt args print_buf =
    vprint_loop-Agrees fmt args (record { bytes = print_buf; index = 0 }) (omega arith)
