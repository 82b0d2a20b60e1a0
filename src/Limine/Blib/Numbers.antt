-- ===== src/Limine/Blib/Numbers.antt =====
-- Numbers are read back as they are printed.
use orionis_os.Base.{
  ◌⊎◌, ℕ, ◌+◌, ◌*◌, ◌%◌, ◌^◌, ◌≤◌, ◌<◌, ◌≡◌, ◌≢◌, ◌∙◌, sym, refl, arith, true, false, Bool-cases,
  inl, inr, some, List, [], ◌∷◌, ◌++◌, All, ◌==◌, u8, u64, all_below, all_below_sound, eqb→eq,
}
use orionis_os.Base.Digits.{value}
use orionis_os.Base.Printed.{spelled, dec_digit, IsText}
use orionis_os.Limine.Blib.{
  char_value, as_word, strtoui_loop, strtoui, strtoui16, split_at, partition_of,
  parse_bios_partition,
}
use orionis_os.Limine.Print.{base_digit, digits_text}
use orionis_os.Limine.Print.Expansion.{decimal, decimal-IsText, digits_text-IsText}

value-ge : (base x : ℕ) (ds : List ℕ) → 1 ≤ base → x ≤ value base x ds
unfolding value
value-ge base x [] one = omega arith
value-ge base x (d ∷ ds) one =
    let grows : x ≤ x * base = grind arith in
    omega (arith, grows, value-ge base (x * base + d) ds one)

-- The digits of a number, in a base whose digits `char_value` knows.
strtoui_loop_lem :
    (base x : ℕ) (digit : ℕ → ℕ) (ds : List ℕ)
    → 1 ≤ base
    → ((d : ℕ) → d < base → as_word (char_value (digit d)) ≡ d)
    → All (λ d. d < base) ds
    → value base x ds < 2 ^ 64
    → strtoui_loop base x (spelled digit ds) ≡ value base x ds
unfolding strtoui_loop value
strtoui_loop_lem base x digit [] one known small fits = refl
strtoui_loop_lem base x digit (d ∷ ds) one known (sd, small) fits =
    let last = value-ge base (x * base + d) ds one in
    let word : u64 (u64 (x * base) + d) ≡ x * base + d = omega (arith, last, fits) in
    rw (strtoui_loop, known d sd, word)
      (strtoui_loop_lem base (x * base + d) digit ds one known small fits)

read_back :
    (base x : ℕ) (digit : ℕ → ℕ) (text : List ℕ)
    → 1 ≤ base
    → ((d : ℕ) → d < base → as_word (char_value (digit d)) ≡ d)
    → x < 2 ^ 64
    → IsText base digit x text
    → strtoui_loop base 0 text ≡ x
read_back base x digit text one known lt h =
    let number = h.number in
    rw (h.letters) (
      strtoui_loop_lem base 0 digit h.digits one known h.small (omega (arith, number, lt)) ∙ number)

decimals : all_below 10 (λ d. as_word (char_value (dec_digit d)) == d) ≡ true
unfolding all_below char_value
decimals = refl

hexes : all_below 16 (λ d. as_word (char_value (base_digit d)) == d) ≡ true
unfolding all_below char_value
hexes = refl

-- `strtoui` reads what `%U` prints.
pub strtoui-decimal : (x : ℕ) → x < 2 ^ 64 → strtoui (decimal x) ≡ x
unfolding strtoui
strtoui-decimal x lt =
    read_back 10 x dec_digit (decimal x) (omega arith)
      (λ d small.
        eqb→eq (as_word (char_value (dec_digit d))) d
          (all_below_sound 10 d (λ k. as_word (char_value (dec_digit k)) == k) decimals small))
      lt (decimal-IsText x lt)

-- `strtoui16` reads the digits that `%X` prints of a number that is not 0.
pub strtoui16-digits_text : (x : ℕ) → x < 2 ^ 64 → strtoui16 (digits_text 16 base_digit 16 x) ≡ x
unfolding strtoui16
strtoui16-digits_text x lt =
    read_back 16 x base_digit (digits_text 16 base_digit 16 x) (omega arith)
      (λ d small.
        eqb→eq (as_word (char_value (base_digit d))) d
          (all_below_sound 16 d (λ k. as_word (char_value (base_digit k)) == k) hexes small))
      lt (digits_text-IsText x lt)

-- The first character `c` of a text in which no earlier one is `c`.
pub split_at_lem :
    (c : ℕ) (s rest : List ℕ) → All (λ d. d ≢ c) s → split_at c (s ++ c ∷ rest) ≡ some (s, rest)
unfolding split_at
split_at_lem c [] rest h = let same : (c == c) ≡ true = ground arith in rw (split_at, same) refl
split_at_lem c (d ∷ s) rest (ne, h) =
    let other : (d == c) ≡ false = ground (arith, ne) in
    rw (split_at, other, split_at_lem c s rest h) refl

-- A character that is no digit.
abbrev pub IsOther : ℕ → Type 0
IsOther c = (c < b'0') ⊎ (b'9' < c)

spelled-All :
    (c : ℕ) (ds : List ℕ)
    → IsOther c
    → All (λ d. d < 10) ds
    → All (λ d. d ≢ c) (spelled dec_digit ds)
spelled-All c [] other h = tt
spelled-All c (d ∷ ds) other (small, h) = (omega (arith, small, other), spelled-All c ds other h)

pub decimal-All : (c x : ℕ) → IsOther c → x < 2 ^ 64 → All (λ d. d ≢ c) (decimal x)
decimal-All c x other lt =
    let h = decimal-IsText x lt in rw (h.letters) (spelled-All c h.digits other h.small)

spelled-cons :
    (ds : List ℕ) (x : ℕ)
    → value 10 0 ds ≡ x
    → x ≢ 0
    → (c : ℕ) × (s : List ℕ) × (spelled dec_digit ds ≡ c ∷ s)
unfolding value
spelled-cons [] x e ne = absurd (ne (sym e))
spelled-cons (d ∷ ds) x e ne = (dec_digit d, spelled dec_digit ds, refl)

decimal-cons : (x : ℕ) → x < 2 ^ 64 → (c : ℕ) × (s : List ℕ) × (decimal x ≡ c ∷ s)
unfolding decimal
decimal-cons x lt = elim (Bool-cases (x == 0)) [
  | inl none_left ↦ (b'0', [], rw none_left refl)
  | inr some_left ↦
      let h = decimal-IsText x lt in
      let (c, s, e) = spelled-cons h.digits x h.number (ground (arith, some_left)) in
      (c, s, h.letters ∙ e)
]

partition_of_cons :
    (boot_drive c c' : ℕ) (s s' before behind : List ℕ)
    → before ≡ c ∷ s
    → behind ≡ c' ∷ s'
    → partition_of boot_drive before behind ≡ some (u8 (strtoui before), u8 (strtoui behind))
partition_of_cons boot_drive c c' s s' before behind e e' = rw (e, e') refl

-- A drive and a partition, each of a byte, are read back from their decimal digits with a colon between.
pub parse_bios_partition-decimal :
    (boot_drive drive partition : ℕ)
    → drive < 256
    → partition < 256
    → parse_bios_partition boot_drive (decimal drive ++ b':' ∷ decimal partition)
      ≡ some (drive, partition)
unfolding parse_bios_partition
parse_bios_partition-decimal boot_drive drive partition small small' =
    let (c, s, e) = decimal-cons drive (omega arith) in
    let (c', s', e') = decimal-cons partition (omega arith) in
    let split =
      split_at_lem b':' (decimal drive) (decimal partition)
        (decimal-All b':' drive (omega arith) (omega arith)) in
    let first : drive % 2 ^ 8 ≡ drive = omega arith in
    let second : partition % 2 ^ 8 ≡ partition = omega arith in
    rw
      (
        parse_bios_partition,
        split,
        partition_of_cons boot_drive c c' s s' (decimal drive) (decimal partition) e e',
        strtoui-decimal drive (omega arith),
        strtoui-decimal partition (omega arith),
        first,
        second,
      )
      refl
