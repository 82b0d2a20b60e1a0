-- ===== src/Limine/Print.antt =====
-- `vprint` of limine/stage2/lib/print.c: the format with its arguments, put together in a buffer of 512
-- bytes. An argument of a kind or at a place that the format does not ask for is `none`, as the C code
-- would read something else there, and so is a number that the local buffer has no room for; the terminal
-- gets the bytes in front of the end.
pub mod Expansion
mod Conversions
mod Layout
mod Tests
use orionis_os.Base.{
  ℕ, zero, suc, ◌+◌, ◌-◌, ◌%◌, ◌^◌, Bool, ℤ, pos, negsuc, Option, none, some, List, [], ◌∷◌, ltb,
  leb, ◌==◌, get_or, length, take, store, u32, u64, true, false, if◌then◌else◌,
}
use orionis_os.Base.Digits.{write_digits}
use orionis_os.Base.Printed.{text_from, dec_digit}
use orionis_os.Base.Text.{codes}

abbrev pub print_buf_max : ℕ
print_buf_max = 512

-- `print_buf` and `print_buf_i`.
pub record Buffer : Type 0 where
  pub bytes : ℕ → ℕ
  pub index : ℕ

abbrev pub ended : Buffer → Buffer
ended b = record b { bytes = store b.bytes b.index 0 }

abbrev pub append : ℕ → Buffer → Buffer
append c b = record { bytes = store b.bytes b.index c; index = b.index + 1 }

-- The loop of `prn_str` and of `prn_nstr`, which ends where the buffer is full.
pub copy_loop : List ℕ → Buffer → Buffer
copy_loop [] b = b
copy_loop (c ∷ cs) b =
    let rest = copy_loop cs (append c b) in if b.index == print_buf_max - 1 then b else rest

pub prn_str : List ℕ → Buffer → Buffer
prn_str string b = ended (copy_loop string b)

pub prn_char : ℕ → Buffer → Buffer
prn_char c b = if ltb b.index (print_buf_max - 1) then ended (append c b) else ended b

abbrev pub base_digit : ℕ → ℕ
base_digit d = get_or (codes "0123456789abcdef") d 0

-- The digits of a number that is not 0, from the local `buf` of `n` cells and a 0.
abbrev pub digits_text : ℕ → (ℕ → ℕ) → ℕ → ℕ → List ℕ
digits_text base digit n x =
    let (start, buf) = write_digits 64 base digit n x (λ i. 0) in text_from (suc n) buf start

pub prn_ui : ℕ → Buffer → Buffer
prn_ui x b = if x == 0 then prn_char b'0' b else prn_str (digits_text 10 dec_digit 20 x) b

pub prn_x : ℕ → Buffer → Buffer
prn_x x b =
    if x == 0
    then prn_str (codes "0x0") b
    else prn_str (digits_text 16 base_digit 16 x) (prn_str (codes "0x") b)

-- The digits end in cell 18 of the local `buf`. A negative number of 19 digits has its sign in front of
-- the buffer, or, for -2 ^ 63, is still negative when its digits are taken: `none`.
pub prn_i : ℤ → Option (Buffer → Buffer)
prn_i (pos x) =
    some (λ b. if x == 0 then prn_char b'0' b else prn_str (digits_text 10 dec_digit 19 x) b)
prn_i (negsuc x) =
    let (start, buf) = write_digits 64 10 dec_digit 19 (x + 1) (λ i. 0) in
    if leb (10 ^ 18) (x + 1)
    then none
    else some (prn_str (text_from 21 (store buf (start - 1) b'-') (start - 1)))

pub data Arg : Type 0 where
  -- A string, or a null pointer.
  str : Option (List ℕ) → Arg
  len : ℕ → Arg
  num : ℕ → Arg
  int : ℤ → Arg
  char : ℕ → Arg

-- What `%s`, `%S`, `%c` and the numbers take from the arguments; `none` where these do not fit.
abbrev pub print_string : Option (List ℕ) → Buffer → Buffer
print_string none b = prn_str (codes "(null)") b
print_string (some text) b = prn_str text b

abbrev take_str : List Arg → Option ((Buffer → Buffer) × List Arg)
take_str (str s ∷ args) = some (print_string s, args)
take_str _ = none

abbrev take_nstr : List Arg → Option ((Buffer → Buffer) × List Arg)
take_nstr (str none ∷ len n ∷ args) = some (print_string none, args)
take_nstr (str (some text) ∷ len n ∷ args) =
    if ltb (length text) n then none else some (prn_str (take n text), args)
take_nstr _ = none

abbrev take_num : (ℕ → Buffer → Buffer) → List Arg → Option ((Buffer → Buffer) × List Arg)
take_num f (num x ∷ args) = some (f x, args)
take_num f _ = none

-- A number of `w` bits.
abbrev pub is_int : ℕ → ℤ → Bool
is_int w (pos x) = ltb x (2 ^ (w - 1))
is_int w (negsuc x) = ltb x (2 ^ (w - 1))

abbrev take_int : ℕ → List Arg → Option ((Buffer → Buffer) × List Arg)
take_int w (int x ∷ args) =
    if is_int w x then elim (prn_i x) [ none ↦ none | some f ↦ some (f, args) ] else none
take_int w _ = none

abbrev take_char : List Arg → Option ((Buffer → Buffer) × List Arg)
take_char (char c ∷ args) = some (prn_char (c % 2 ^ 8), args)
take_char _ = none

-- The `switch` on the character behind `%`.
pub conversion : ℕ → List Arg → Option ((Buffer → Buffer) × List Arg)
conversion c args =
    if c == b's'
    then take_str args
    else if c == b'S'
    then take_nstr args
    else if c == b'd'
    then take_int 32 args
    else if c == b'u'
    then take_num (λ x. prn_ui (u32 x)) args
    else if c == b'x'
    then take_num (λ x. prn_x (u32 x)) args
    else if c == b'D'
    then take_int 64 args
    else if c == b'U'
    then take_num (λ x. prn_ui (u64 x)) args
    else if c == b'X'
    then take_num (λ x. prn_x (u64 x)) args
    else if c == b'c'
    then take_char args
    else some (prn_char b'?', args)

-- The loop of `vprint`. Behind a `%` at the end of the format the C code reads on past its end.
pub vprint_loop : List ℕ → List Arg → Buffer → Option Buffer
vprint_loop [] args b = some b
vprint_loop (c ∷ []) args b = if c == b'%' then none else some (prn_char c b)
vprint_loop (c ∷ d ∷ fmt) args b = elim (c == b'%') [
  | false ↦ vprint_loop (d ∷ fmt) args (prn_char c b)
  | true ↦ elim (conversion d args) [
    | none ↦ none
    | some (convert, args') ↦ vprint_loop fmt args' (convert b)
  ]
]

pub vprint : List ℕ → List Arg → (ℕ → ℕ) → Option Buffer
vprint fmt args print_buf = vprint_loop fmt args (record { bytes = print_buf; index = 0 })
