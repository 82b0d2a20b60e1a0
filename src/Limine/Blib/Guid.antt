-- ===== src/Limine/Blib/Guid.antt =====
-- The reading of a GUID in limine/stage2/lib/blib.c. What is stored is the list of its 16 bytes; `s[i]` is
-- 0 behind the end of the string.
use Prim.Native.Nat.{bit_or}
use orionis_os.Base.{
  ℕ, zero, suc, ◌+◌, ◌*◌, ◌/◌, ◌%◌, ◌<◌, ◌≡◌, refl, arith, Bool, true, false, not, Option, none,
  some, List, [], ◌∷◌, ◌++◌, ◌==◌, ◌&&◌, ◌||◌, u8, all_below, all_below_sound, eqb→eq, get_elem?,
  if◌then◌else◌,
}
use orionis_os.Limine.Blib.{char_value}
use orionis_os.Limine.Part.{bytes_at}
use orionis_os.Limine.Print.{base_digit}

unfoldable pub is_digit : ℕ → Bool
is_digit c = elim (char_value c) [ none ↦ false | some v ↦ true ]

-- A digit is a letter up to `z` too, not only up to `f`.
unfoldable pub is_valid_guid : ℕ → List ℕ → Bool
is_valid_guid i [] = i == 36
is_valid_guid i (c ∷ s) =
    let rest = is_valid_guid (i + 1) s in
    if i == 36
    then false
    else if i == 8 || (i == 13 || (i == 18 || i == 23))
    then c == b'-' && rest
    else is_digit c && rest

-- Of valid texts only, so the -1 of `char_value` does not come up.
abbrev pub digit_of : ℕ → ℕ
digit_of c = elim (char_value c) [ none ↦ 0 | some v ↦ v ]

-- The byte from the characters at an even place and the next one.
pub byte_of : ℕ → ℕ → ℕ
byte_of c d = u8 (bit_or (u8 (digit_of c * 16)) (u8 (digit_of d)))

abbrev pub at : List ℕ → ℕ → ℕ
at s i = elim (get_elem? s i) [ none ↦ 0 | some c ↦ c ]

-- `n` bytes from a place of the string on, the last characters first.
unfoldable pub guid_convert_le_cluster : ℕ → List ℕ → ℕ → List ℕ
guid_convert_le_cluster zero s i = []
guid_convert_le_cluster (suc n) s i =
    byte_of (at s (i + 2 * n)) (at s (i + 2 * n + 1)) ∷ guid_convert_le_cluster n s i

unfoldable pub guid_convert_be_cluster : ℕ → List ℕ → ℕ → List ℕ
guid_convert_be_cluster zero s i = []
guid_convert_be_cluster (suc n) s i =
    byte_of (at s i) (at s (i + 1)) ∷ guid_convert_be_cluster n s (i + 2)

unfoldable pub string_to_guid : List ℕ → Option (List ℕ)
string_to_guid s =
    if not (is_valid_guid 0 s)
    then none
    else some (
        guid_convert_le_cluster 4 s 0
        ++ guid_convert_le_cluster 2 s 9
        ++ guid_convert_le_cluster 2 s 14
        ++ guid_convert_be_cluster 2 s 19
        ++ guid_convert_be_cluster 6 s 24)

pub digit : ℕ → ℕ
digit = base_digit

-- The usual text of the GUID in the bytes from a place of memory on.
abbrev pub hex : (ℕ → ℕ) → List ℕ → List ℕ
hex guid [] = []
hex guid (i ∷ places) = digit (guid i / 16) ∷ digit (guid i % 16) ∷ hex guid places

abbrev pub guid_text : (ℕ → ℕ) → List ℕ
guid_text guid =
    hex guid (3 ∷ 2 ∷ 1 ∷ 0 ∷ [])
    ++ b'-' ∷ hex guid (5 ∷ 4 ∷ [])
    ++ b'-' ∷ hex guid (7 ∷ 6 ∷ [])
    ++ b'-' ∷ hex guid (8 ∷ 9 ∷ [])
    ++ b'-' ∷ hex guid (10 ∷ 11 ∷ 12 ∷ 13 ∷ 14 ∷ 15 ∷ [])

digits : all_below 16 (λ d. is_digit (digit d)) ≡ true
unfolding all_below is_digit char_value digit
digits = refl

bytes : all_below 256 (λ b. byte_of (digit (b / 16)) (digit (b % 16)) == b) ≡ true
unfolding all_below byte_of char_value digit
bytes = refl

digit_lem : (v : ℕ) → v < 16 → is_digit (digit v) ≡ true
digit_lem v = all_below_sound 16 v (λ d. is_digit (digit d)) digits

byte_lem : (b : ℕ) → b < 256 → byte_of (digit (b / 16)) (digit (b % 16)) ≡ b
byte_lem b lt =
    eqb→eq (byte_of (digit (b / 16)) (digit (b % 16))) b
      (all_below_sound 256 b (λ b. byte_of (digit (b / 16)) (digit (b % 16)) == b) bytes lt)

-- The text of a GUID is read back as its 16 bytes.
pub string_to_guid-text :
    (guid : ℕ → ℕ)
    → ((i : ℕ) → guid i < 256)
    → string_to_guid (guid_text guid) ≡ some (bytes_at guid 0 16)
unfolding string_to_guid is_valid_guid bytes_at guid_convert_le_cluster guid_convert_be_cluster
string_to_guid-text guid small =
    let high : (i : ℕ) → is_digit (digit (guid i / 16)) ≡ true =
      λ i. digit_lem (guid i / 16) (omega (arith, small i)) in
    let low : (i : ℕ) → is_digit (digit (guid i % 16)) ≡ true =
      λ i. digit_lem (guid i % 16) (omega arith) in
    let byte : (i : ℕ) → byte_of (digit (guid i / 16)) (digit (guid i % 16)) ≡ guid i =
      λ i. byte_lem (guid i) (small i) in
    simp (high, low, byte)
