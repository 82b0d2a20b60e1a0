-- ===== src/Kernel/Strutils.antt =====
-- `itob` of lib/strutils.cpp: a number as text in a static buffer of 50 bytes, which stands at address
-- `buffer` in memory.
mod Laws
mod Tests
use orionis_os.Base.{ℕ, ◌+◌, ◌-◌, ◌/◌, ◌%◌, List, [], ◌∷◌, get_or, ltb, store, if◌then◌else◌}
use orionis_os.Base.Digits.{write_digits}

-- `hold`, with the byte 0 at its end.
abbrev pub hold : List ℕ
hold = 48 ∷ 49 ∷ 50 ∷ 51 ∷ 52 ∷ 53 ∷ 54 ∷ 55 ∷ 56 ∷ 57 ∷ 65 ∷ 66 ∷ 67 ∷ 68 ∷ 69 ∷ 70 ∷ 0 ∷ []

-- `hold[d]`; behind the table stand bytes that are not known.
abbrev pub digit : (ℕ → ℕ) → ℕ → ℕ
digit behind d = if ltb d 17 then get_or hold d 0 else behind d

-- The first round of the `do` loop, then the rounds for what is left; 64 are enough for 64 bits.
pub itob : (ℕ → ℕ) → ℕ → ℕ → ℕ → (ℕ → ℕ) → ℕ × (ℕ → ℕ)
itob behind buffer num base mem =
    write_digits 63 base (digit behind) (buffer + 48) (num / base)
      (store (store mem (buffer + 49) 0) (buffer + 48) (digit behind (num % base)))
