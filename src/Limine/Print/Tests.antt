-- ===== src/Limine/Print/Tests.antt =====
-- Runs of `vprint`.
use orionis_os.Base.{ℕ, ◌≡◌, refl, negsuc, Option, none, some, List, [], ◌∷◌}
use orionis_os.Base.Digits.{write_digits}
use orionis_os.Base.Printed.{text_from}
use orionis_os.Base.Text.{codes}
use orionis_os.Limine.Print.Conversions.{Agrees, vprint-Agrees}
use orionis_os.Limine.Print.Expansion.{expand}
use orionis_os.Limine.Print.{
  Buffer, str, num, int, char, copy_loop, prn_str, prn_char, prn_ui, prn_x, prn_i, conversion,
  vprint_loop, vprint,
}

abbrev shown : Option Buffer → List ℕ
shown none = []
shown (some b) = text_from 512 b.bytes 0

strings_run :
    shown
      (vprint (codes "%s|%s|%c|%q") (str (some (codes "ab")) ∷ str none ∷ char b'z' ∷ []) (λ a. 7))
    ≡ codes "ab|(null)|z|?"
unfolding vprint vprint_loop conversion prn_str prn_char copy_loop text_from
strings_run = refl

numbers_run :
    shown
      (vprint (codes "%u %x %d %X") (num 1024 ∷ num 0xBEEF ∷ int (negsuc 41) ∷ num 0 ∷ []) (λ a. 7))
    ≡ codes "1024 0xbeef -42 0x0"
unfolding vprint vprint_loop conversion prn_str prn_char copy_loop text_from prn_ui prn_x prn_i
    write_digits
numbers_run = refl

percent_run : vprint (codes "50%") [] (λ a. 7) ≡ none
unfolding vprint vprint_loop
percent_run = refl

vprint-Agrees_example :
    Agrees
      (record { bytes = λ a. 7; index = 0 })
      (vprint (codes "%d of %x") (int (negsuc 41) ∷ num 0xBEEF ∷ []) (λ a. 7))
      (expand (codes "%d of %x") (int (negsuc 41) ∷ num 0xBEEF ∷ []))
vprint-Agrees_example =
    vprint-Agrees (codes "%d of %x") (int (negsuc 41) ∷ num 0xBEEF ∷ []) (λ a. 7)
