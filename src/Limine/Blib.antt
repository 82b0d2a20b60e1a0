-- ===== src/Limine/Blib.antt =====
-- limine/stage2/lib/blib.c: the square root, the reading of numbers, the names of partitions and the keys
-- of the BIOS. A string is the list of its characters. (`bcd_to_int` stands in Time.)
pub mod Root
pub mod Numbers
pub mod Guid
pub mod Input
mod Tests
use orionis_os.Base.{
  ℕ, zero, suc, ◌+◌, ◌-◌, ◌*◌, ◌/◌, ◌%◌, ◌^◌, Bool, true, false, Option, none, some, List, [], ◌∷◌,
  ltb, leb, ◌==◌, ◌&&◌, u8, u64, if◌then◌else◌,
}

-- The first loop of `sqrt`, and then the second one; both divide `one` by 4 until it is 0.
pub start_loop : ℕ → ℕ → ℕ → ℕ
start_loop zero one op = one
start_loop (suc fuel) one op =
    let rest = start_loop fuel (one / 4) op in if ltb op one then rest else one

pub root_loop : ℕ → ℕ → ℕ → ℕ → ℕ
root_loop zero one op res = res
root_loop (suc fuel) one op res =
    let t = u64 (res + one) in
    let rest =
      root_loop fuel (one / 4) (if leb t op then op - t else op)
        ((if leb t op then u64 (res + u64 (2 * one)) else res) / 2) in
    if one == 0 then res else rest

pub sqrt : ℕ → ℕ
sqrt a_nInput = root_loop 32 (start_loop 32 (2 ^ 62) a_nInput) a_nInput 0

-- `none` is -1.
unfoldable pub char_value : ℕ → Option ℕ
char_value c =
    if leb b'a' c && leb c b'z'
    then some (c - b'a' + 10)
    else if leb b'A' c && leb c b'Z'
    then some (c - b'A' + 10)
    else if leb b'0' c && leb c b'9'
    then some (c - b'0')
    else none

abbrev pub as_word : Option ℕ → ℕ
as_word none = 2 ^ 64 - 1
as_word (some v) = v

-- `strtoui` for base 10 and `strtoui16` for base 16, from `n` on.
unfoldable pub strtoui_loop : ℕ → ℕ → List ℕ → ℕ
strtoui_loop base n [] = n
strtoui_loop base n (c ∷ s) = strtoui_loop base (u64 (u64 (n * base) + as_word (char_value c))) s

unfoldable pub strtoui : List ℕ → ℕ
strtoui = strtoui_loop 10 0

pub strtoui16 : List ℕ → ℕ
strtoui16 = strtoui_loop 16 0

-- The text in front of the first character `c`, and that behind it.
unfoldable pub split_at : ℕ → List ℕ → Option (List ℕ × List ℕ)
split_at c [] = none
split_at c (d ∷ s) = elim (d == c) [
  | true ↦ some ([], s)
  | false ↦ elim (split_at c s) [ none ↦ none | some (before, behind) ↦ some (d ∷ before, behind) ]
]

abbrev pub drive_of : ℕ → List ℕ → ℕ
drive_of boot_drive [] = boot_drive
drive_of boot_drive (c ∷ s) = u8 (strtoui (c ∷ s))

abbrev pub partition_of : ℕ → List ℕ → List ℕ → Option (ℕ × ℕ)
partition_of boot_drive before [] = none
partition_of boot_drive before (c ∷ s) = some (drive_of boot_drive before, u8 (strtoui (c ∷ s)))

-- The drive and the partition.
pub parse_bios_partition : ℕ → List ℕ → Option (ℕ × ℕ)
parse_bios_partition boot_drive loc = elim (split_at b':' loc) [
  | none ↦ none
  | some (before, behind) ↦ partition_of boot_drive before behind
]

-- The result is an `int`, taken as a word of 32 bits; a `char` has a sign.
abbrev pub cursor_left : ℕ
cursor_left = 2 ^ 32 - 10

abbrev pub cursor_right : ℕ
cursor_right = 2 ^ 32 - 11

abbrev pub cursor_up : ℕ
cursor_up = 2 ^ 32 - 12

abbrev pub cursor_down : ℕ
cursor_down = 2 ^ 32 - 13

abbrev pub int_of_char : ℕ → ℕ
int_of_char c = if ltb c 128 then c else c + 2 ^ 32 - 256

unfoldable pub getchar_internal : ℕ → ℕ
getchar_internal eax =
    let code = eax / 256 % 256 in
    if code == 0x4b
    then cursor_left
    else if code == 0x4d
    then cursor_right
    else if code == 0x48
    then cursor_up
    else if code == 0x50
    then cursor_down
    else int_of_char (eax % 256)
