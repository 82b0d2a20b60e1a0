-- ===== src/Kernel/Strutils/Tests.antt =====
-- Runs of `itob`.
use orionis_os.Base.{ℕ, ◌^◌, ◌<◌, ◌≡◌, refl, arith}
use orionis_os.Base.Digits.{write_digits}
use orionis_os.Kernel.Strutils.{itob}
use orionis_os.Kernel.Strutils.Laws.{IsPrinted, itob-IsPrinted, itob_underflow}

abbrev blank : ℕ → ℕ
blank a = 0xAA

-- 0x2F is "2F".
itob_run :
    ((itob blank 1000 47 16 blank).0 ≡ 1047)
    × ((itob blank 1000 47 16 blank).1 1047 ≡ 50)
    × ((itob blank 1000 47 16 blank).1 1048 ≡ 70)
    × ((itob blank 1000 47 16 blank).1 1049 ≡ 0)
unfolding itob write_digits
itob_run = (refl, refl, refl, refl)

itob-IsPrinted_example :
    IsPrinted blank 1000 47 16 (itob blank 1000 47 16 blank).0 blank (itob blank 1000 47 16 blank).1
itob-IsPrinted_example =
    itob-IsPrinted blank 16 47 (omega arith) 1000 blank (omega arith) (omega arith)

itob_underflow_run : (itob blank 1000 (2 ^ 60) 2 blank).0 < 1000
itob_underflow_run =
    itob_underflow blank 2 (2 ^ 60) 1000 blank (omega arith) (omega arith) (omega arith)
      (omega arith)
