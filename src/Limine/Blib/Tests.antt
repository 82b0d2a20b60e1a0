-- ===== src/Limine/Blib/Tests.antt =====
-- Runs of the functions of the base library.
use orionis_os.Base.{ℕ, ◌<◌, ◌≤◌, [], ◌≡◌, ◌++◌, ◌∷◌, refl, arith, some, true, ◌%◌}
use orionis_os.Base.Text.{codes}
use orionis_os.Kernel.Libc.Strings.{IsString}
use orionis_os.Limine.Blib.{
  cursor_left, getchar_internal, char_value, strtoui, strtoui_loop, parse_bios_partition, sqrt,
}
use orionis_os.Limine.Blib.Guid.{
  is_digit, is_valid_guid, string_to_guid, guid_text, string_to_guid-text,
}
use orionis_os.Limine.Blib.Input.{Line, gets}
use orionis_os.Limine.Blib.Input.Editing.{joined}
use orionis_os.Limine.Blib.Input.Editor.{edit}
use orionis_os.Limine.Blib.Input.Runs.{edits, gets-edits}
use orionis_os.Limine.Part.{bytes_at}
use orionis_os.Limine.Blib.Numbers.{parse_bios_partition-decimal}
use orionis_os.Limine.Blib.Root.{IsRoot, sqrt-IsRoot}
use orionis_os.Limine.Print.Expansion.{decimal}

-- Letters are taken for digits, in base 10 too.
letters_run : strtoui (codes "1f") ≡ 25
unfolding strtoui strtoui_loop char_value
letters_run = refl

sqrt-IsRoot_example : IsRoot 1000003 (sqrt 1000003)
sqrt-IsRoot_example = sqrt-IsRoot 1000003 (omega arith)

parse_bios_partition-decimal_run :
    parse_bios_partition 0x80 (decimal 129 ++ b':' ∷ decimal 2) ≡ some (129, 2)
parse_bios_partition-decimal_run =
    parse_bios_partition-decimal 0x80 129 2 (omega arith) (omega arith)

-- A character above 127 is a negative `char`, so 0xF6 is taken for the key of the cursor.
char_cursor_run : getchar_internal 0xF6 ≡ cursor_left
unfolding getchar_internal
char_cursor_run = refl

-- Letters after `f` are taken for digits of a GUID.
letters_guid_run : is_valid_guid 0 (codes "zzzzzzzz-0000-0000-0000-000000000000") ≡ true
unfolding is_valid_guid is_digit char_value
letters_guid_run = refl

abbrev guid : ℕ → ℕ
guid i = i % 256

guid-small : (i : ℕ) → guid i < 256
guid-small i = omega arith

string_to_guid-text_example : string_to_guid (guid_text guid) ≡ some (bytes_at guid 0 16)
string_to_guid-text_example = string_to_guid-text guid guid-small

abbrev scratch : ℕ → ℕ
scratch i = 7

-- `xb` is set in front of `c`, and the `b` is taken back.
gets-edits_example :
    (line : Line) × (gets 8 (codes "ac") (cursor_left ∷ b'x' ∷ b'b' ∷ 8 ∷ b'\r' ∷ []) scratch
      ≡ some line)
    × IsString line.buf 0 (codes "axc")
    × (line.i ≡ 2)
    × (3 < 8)
    × ((a : ℕ) → 8 ≤ a → line.buf a ≡ scratch a)
unfolding edits edit joined
gets-edits_example =
    gets-edits 8 (codes "ac") (cursor_left ∷ b'x' ∷ b'b' ∷ 8 ∷ []) [] scratch (omega arith)
      (omega arith) (ground arith) (ground arith)
