-- ===== src/Kernel/Command/Debug.antt =====
-- What commands do: the echo of a text, and the debug mode over a series of commands.
use orionis_os.Base.{
  ◌∙◌, ℕ, zero, suc, ◌+◌, ◌≤◌, ◌<◌, ◌≡◌, ◌≢◌, refl, pos, some, ap, sym, subst, true, false, List,
  [], ◌∷◌, ◌++◌, arith, ◌==◌, ◌||◌, length, All,
}
use orionis_os.Base.Text.{codes}
use orionis_os.Kernel.Command.{tty_print, World}
use orionis_os.Kernel.Command.Dispatch.{starts_with, is_word, run_command, execute_command}
use orionis_os.Kernel.Command.Replies.{cmd_echo, skip_spaces, read_text}
use orionis_os.Kernel.Libc.{strcmp}
use orionis_os.Kernel.Libc.Compare.{dictionary, dictionary-eq, dictionary_self, strcmp-dictionary}
use orionis_os.Kernel.Libc.Strings.{IsString}

abbrev pub spaces : ℕ → List ℕ → List ℕ
spaces zero text = text
spaces (suc n) text = b' ' ∷ spaces n text

read_text_lem :
    (n i : ℕ) (buffer : ℕ → ℕ) (text : List ℕ)
    → IsString buffer i text
    → length text < n
    → read_text n buffer i ≡ text
unfolding read_text
read_text_lem zero i buffer text h lt = absurd (omega arith)
read_text_lem (suc n) i buffer [] h lt = ground (arith, h)
read_text_lem (suc n) i buffer (c ∷ text) (here, some_char, rest) lt =
    let more : (buffer i == 0) ≡ false = ground (arith, here, some_char) in
    rw (more, here, read_text_lem n (i + 1) buffer text rest (omega arith)) refl

-- Behind the spaces begins the text, which begins with no space.
skip_spaces_lem :
    (n k i : ℕ) (buffer : ℕ → ℕ) (c : ℕ) (text : List ℕ)
    → c ≢ b' '
    → k ≤ n
    → IsString buffer i (spaces k (c ∷ text))
    → (skip_spaces (suc n) buffer i ≡ i + k) × IsString buffer (i + k) (c ∷ text)
unfolding skip_spaces
skip_spaces_lem n zero i buffer c text ne le (here, some_char, rest) =
    let stop : (buffer i == b' ') ≡ false = ground (arith, here, ne) in
    let same : i ≡ i + zero = omega arith in
    (rw stop same, subst (λ j. IsString buffer j (c ∷ text)) same (here, some_char, rest))
skip_spaces_lem zero (suc k) i buffer c text ne le h = absurd (omega arith)
skip_spaces_lem (suc n) (suc k) i buffer c text ne le (here, some_char, rest) =
    let (skips, string) = skip_spaces_lem n k (i + 1) buffer c text ne (omega arith) rest in
    let shift : i + 1 + k ≡ i + suc k = omega arith in
    let space : (buffer i == b' ') ≡ true = ground (arith, here) in
    (rw space (skips ∙ shift), subst (λ j. IsString buffer j (c ∷ text)) shift string)

-- The command `echo`, a space, more spaces and a text that begins with no space prints the text and a
-- line break, outside the debug mode.
pub execute_command_echo :
    (w : World) (buffer : ℕ → ℕ) (k c : ℕ) (text : List ℕ)
    → c ≢ b' '
    → IsString buffer 0 (codes "echo " ++ spaces k (c ∷ text))
    → k + length text < 250
    → execute_command w buffer false
      ≡ (false, tty_print (c ∷ text) 0xFFFFFF ∷ tty_print (codes "\n") 0xFFFFFF ∷ [])
unfolding execute_command run_command cmd_echo is_word starts_with
execute_command_echo w buffer k c text ne (e0, n0, (e1, n1, (e2, n2, (e3, n3, (e4, n4, rest)))))
      few =
    let (skips, string) = skip_spaces_lem 255 k 5 buffer c text ne (omega arith) rest in
    let debug : is_word buffer 0 (codes "debug") ≡ false = ground (arith, e0) in
    let undebug : is_word buffer 0 (codes "undebug") ≡ false = ground (arith, e0) in
    let help : is_word buffer 0 (codes "help") ≡ false = ground (arith, e0) in
    let clear : is_word buffer 0 (codes "clear") ≡ false = ground (arith, e0) in
    let echo : starts_with buffer 0 (codes "echo") ≡ true = ground (arith, e0, e1, e2, e3) in
    let space : (buffer 4 == b' ' || buffer 4 == 0) ≡ true = ground (arith, e4) in
    let more : (buffer (5 + k) == 0) ≡ false = ground (arith, string.0, string.1) in
    let text_read = read_text_lem 256 (5 + k) buffer (c ∷ text) string (omega arith) in
    rw (debug, undebug, help, clear, echo, space, skips, more, text_read) refl

-- The comparison with a word is `strcmp`.
is_word_self :
    (i : ℕ) (buffer : ℕ → ℕ) (l : List ℕ) → IsString buffer i l → is_word buffer i l ≡ true
unfolding is_word
is_word_self i buffer [] h = ground (arith, h)
is_word_self i buffer (c ∷ l) (here, some_char, rest) =
    ground (arith, here, is_word_self (i + 1) buffer l rest)

is_word-IsString :
    (i : ℕ) (buffer : ℕ → ℕ) (l m : List ℕ)
    → IsString buffer i l
    → All (λ c. c ≢ 0) m
    → is_word buffer i m ≡ true
    → l ≡ m
unfolding is_word
is_word-IsString i buffer [] [] h chars e = refl
is_word-IsString i buffer [] (d ∷ m) h (some_char, chars) e =
    absurd (ground (arith, h, some_char, e))
is_word-IsString i buffer (c ∷ l) [] (here, some_char, rest) chars e =
    absurd (ground (arith, here, some_char, e))
is_word-IsString i buffer (c ∷ l) (d ∷ m) (here, ne, rest) (some_char, chars) e =
    let rest_same = is_word-IsString (i + 1) buffer l m rest chars (ground (arith, e, here)) in
    let head : c ≡ d = ground (arith, e, here) in cc (head, rest_same)

-- For strings, the comparison with a word finds it exactly where `strcmp` returns 0.
pub is_word-strcmp :
    (fuel s1 s2 : ℕ) (mem : ℕ → ℕ) (l word : List ℕ)
    → IsString mem s1 l
    → IsString mem s2 word
    → All (λ c. c ≢ 0) word
    → length l < fuel
    → (is_word mem s1 word ≡ true → strcmp fuel s1 s2 mem ≡ some (pos 0))
      × (strcmp fuel s1 s2 mem ≡ some (pos 0) → is_word mem s1 word ≡ true)
is_word-strcmp fuel s1 s2 mem l word h1 h2 chars lt =
    let compared = strcmp-dictionary fuel s1 s2 mem l word h1 h2 lt in
    (
      λ found.
          let same = is_word-IsString s1 mem l word h1 chars found in
          compared ∙ ap some (ap (λ x. dictionary l x) (sym same) ∙ dictionary_self l),
      λ zero_found.
          let e : some (dictionary l word) ≡ some (pos 0) = sym compared ∙ zero_found in
          let same = dictionary-eq l word (cc) in
          subst (λ x. is_word mem s1 x ≡ true) same (is_word_self s1 mem l h1),
    )
