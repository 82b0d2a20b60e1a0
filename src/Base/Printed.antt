-- ===== src/Base/Printed.antt =====
-- The text that is read from a buffer of characters, and the text of a number: the digits that
-- `write_digits` leaves there, read back as a number.
use Prim.Native.Nat.{ℕ, zero, suc, ◌+◌, ◌^◌, ◌≤◌, ◌<◌}
use mathlib.Core.Path.{◌≡◌, refl, ap, ◌∙◌}
use mathlib.Core.Logic.{◌≢◌, inl, inr}
use mathlib.Core.Bool.{false}
use mathlib.Core.List.{List, [], ◌∷◌}
use native.Mathlib.Omega.{arith}
use orionis_os.Base.Tests.{◌==◌, if◌then◌else◌}
use orionis_os.Base.Lists.{length, All}
use orionis_os.Base.Digits.{write_digits, write_digits_lem, value, Shown, Leads}

-- The characters of the local `buffer` from index `i` up to the first 0.
unfoldable pub text_from : ℕ → (ℕ → ℕ) → ℕ → List ℕ
text_from zero buffer i = []
text_from (suc n) buffer i =
    let rest = text_from n buffer (i + 1) in if buffer i == 0 then [] else buffer i ∷ rest

abbrev pub dec_digit : ℕ → ℕ
dec_digit d = d + b'0'

-- The characters of the digits.
abbrev pub spelled : (ℕ → ℕ) → List ℕ → List ℕ
spelled digit [] = []
spelled digit (d ∷ ds) = digit d ∷ spelled digit ds

-- The text is that of the number in the base, with no digit 0 in front but for the number 0.
pub record IsText (base : ℕ) (digit : ℕ → ℕ) (v : ℕ) (text : List ℕ) : Type 0 where
  pub digits : List ℕ
  pub letters : text ≡ spelled digit digits
  pub small : All (λ d. d < base) digits
  pub number : value base 0 digits ≡ v
  pub leads : v ≢ 0 → Leads digits

abbrev pub IsLetter : ℕ → (ℕ → ℕ) → Type 0
IsLetter base digit = (d : ℕ) → d < base → digit d ≢ 0

text_from_lem :
    (n base i : ℕ) (digit buffer : ℕ → ℕ) (ds : List ℕ)
    → IsLetter base digit
    → All (λ d. d < base) ds
    → Shown digit buffer i ds
    → buffer (i + length ds) ≡ 0
    → length ds < n
    → text_from n buffer i ≡ spelled digit ds
unfolding text_from
text_from_lem zero base i digit buffer ds l small h end lt = absurd (omega arith)
text_from_lem (suc n) base i digit buffer [] l small h end lt =
    let here : buffer i ≡ 0 = ap buffer (omega arith) ∙ end in ground (arith, here)
text_from_lem (suc n) base i digit buffer (d ∷ ds) l (sd, small) (here, h) end lt =
    let more : (buffer i == 0) ≡ false = ground (arith, here, l d sd) in
    let stop : buffer (i + 1 + length ds) ≡ 0 = ap buffer (omega arith) ∙ end in
    let rest = text_from_lem n base (i + 1) digit buffer ds l small h stop (omega arith) in
    rw (more, here, rest) refl

pub zero-IsText : (base : ℕ) (digit : ℕ → ℕ) → 2 ≤ base → IsText base digit 0 (digit 0 ∷ [])
unfolding value
zero-IsText base digit two = record {
  digits = 0 ∷ [];
  letters = refl;
  small = (omega arith, tt);
  number = omega arith;
  leads = λ ne. absurd (ne refl);
}

-- The buffer of `n` digits and a 0 at its end.
module _ (base n v : ℕ) (digit : ℕ → ℕ) (two : 2 ≤ base) (l : IsLetter base digit)
    (fits : v < base ^ n) (fuel : n ≤ 64) where
  abbrev run : ℕ × (ℕ → ℕ)
  run = write_digits 64 base digit n v (λ i. 0)

  pub loop-IsText : IsText base digit v (text_from (suc n) run.1 run.0)
  unfolding value
  loop-IsText =
      let w = write_digits_lem base digit two 64 n n v [] (λ i. 0) fits fuel (omega arith) tt tt in
      record {
        digits = w.digits;
        letters =
            text_from_lem (suc n) base run.0 digit run.1 w.digits l w.small w.cells
              (w.others (run.0 + length w.digits) (inr (omega (arith, w.place))))
              (omega (arith, w.place));
        small = w.small;
        number = w.number;
        leads = λ ne. w.leads (inl ne);
      }
