-- ===== src/Kernel/Tty/Numbers.antt =====
-- The text that `print_hex` and `print_dec` print, read back as a number.
use orionis_os.Base.{
  ℕ, ◌^◌, ◌<◌, ◌≡◌, inl, inr, refl, true, arith, ltb, ◌==◌, all_below, all_below_sound, Bool-cases,
}
use orionis_os.Base.Printed.{dec_digit, IsText, IsLetter, zero-IsText, loop-IsText}
use orionis_os.Kernel.Tty.{hex_digit, hex_text, dec_text}

-- `print_dec` prints the decimal digits of every number of 64 bits.
pub dec_text-IsText : (v : ℕ) → v < 2 ^ 64 → IsText 10 dec_digit v (dec_text v)
unfolding dec_text
dec_text-IsText v h = elim (Bool-cases (v == 0)) [
  | inl none_left ↦
      let e : v ≡ 0 = ground (arith, none_left) in rw e (zero-IsText 10 dec_digit (omega arith))
  | inr some_left ↦ rw some_left (
      loop-IsText 10 20 v dec_digit (omega arith) (λ d lt. omega arith) (omega arith) (omega arith))
]

hex_table : all_below 16 (λ d. ltb 0 (hex_digit d)) ≡ true
unfolding all_below
hex_table = refl

hex-IsLetter : IsLetter 16 hex_digit
hex-IsLetter d lt =
    let some_char = all_below_sound 16 d (λ k. ltb 0 (hex_digit k)) hex_table lt in
    λ zero_char. ground (arith, some_char, zero_char)

-- `print_hex` prints its hexadecimal digits.
pub hex_text-IsText : (v : ℕ) → v < 2 ^ 64 → IsText 16 hex_digit v (hex_text v)
unfolding hex_text
hex_text-IsText v h = elim (Bool-cases (v == 0)) [
  | inl none_left ↦
      let e : v ≡ 0 = ground (arith, none_left) in rw e (zero-IsText 16 hex_digit (omega arith))
  | inr some_left ↦
      rw some_left
        (loop-IsText 16 16 v hex_digit (omega arith) hex-IsLetter (omega arith) (omega arith))
]
