-- ===== src/Kernel/Strutils/Laws.antt =====
-- What `itob` leaves in its buffer, and where it leaves it.
use orionis_os.Base.{
  ◌∙◌, ℕ, ◌+◌, ◌/◌, ◌%◌, ◌^◌, ◌≤◌, ◌<◌, ◌≡◌, ◌≢◌, ◌⊎◌, inl, inr, Bool-cases, List, [], ◌∷◌, arith,
  store, length, All, ltb,
}
use native.Mathlib.Nat.{div-add-mod', pow-le-pow_right}
use orionis_os.Base.Digits.{
  write_digits_lem, value, value-lt, Shown, Leads, IsWritten, shorter, digit-lt, leading,
}
use orionis_os.Kernel.Strutils.{digit, itob}

-- The text of `num` stands in the buffer, from `str` to the byte 0 at its end.
pub record IsPrinted (behind : ℕ → ℕ) (buffer num base str : ℕ) (mem mem' : ℕ → ℕ) : Type 0 where
  pub digits : List ℕ
  pub cells : Shown (digit behind) mem' str digits
  pub end : (str + length digits ≡ buffer + 49) × (mem' (buffer + 49) ≡ 0)
  pub small : All (λ d. d < base) digits
  pub number : value base 0 digits ≡ num
  pub leads : num ≢ 0 → Leads digits
  pub within : buffer ≤ str
  pub others : (a : ℕ) → (a < buffer) ⊎ (buffer + 50 ≤ a) → mem' a ≡ mem a

module _ (behind : ℕ → ℕ) (base num : ℕ) (two : 2 ≤ base) where
  abbrev first : ℕ → (ℕ → ℕ) → ℕ → ℕ
  first buffer mem = store (store mem (buffer + 49) 0) (buffer + 48) (digit behind (num % base))

  -- The rounds behind the first one, for a number of `n` further digits.
  rounds :
      (buffer n : ℕ) (mem : ℕ → ℕ)
      → num / base < base ^ n
      → n ≤ 63
      → n ≤ buffer + 48
      → IsWritten base n
          (digit behind)
          (buffer + 48)
          (num / base)
          (num % base ∷ [])
          (first buffer mem)
          (itob behind buffer num base mem).0
          (itob behind buffer num base mem).1
  unfolding itob
  rounds buffer n mem lt f room =
      write_digits_lem base (digit behind) two 63 n (buffer + 48) (num / base) (num % base ∷ [])
        (first buffer mem) lt f room (ground arith, tt) (digit-lt base (digit behind) two num, tt)

  in_order : value base (num / base) (num % base ∷ []) ≡ num
  unfolding value
  in_order = div-add-mod' num base

  -- For a base from 2 to 16, and a number of at most 49 digits, `itob` leaves the text of the number in the
  -- buffer, with no digit 0 in front but for the number 0, and changes no byte outside the buffer.
  pub itob-IsPrinted :
      (buffer : ℕ) (mem : ℕ → ℕ)
      → base ≤ 16
      → num < base ^ 49
      → IsPrinted behind buffer num base
          (itob behind buffer num base mem).0
          mem
          (itob behind buffer num base mem).1
  itob-IsPrinted buffer mem few fits =
      let w =
        rounds buffer 48 mem (shorter base (digit behind) two num 48 fits) (omega arith)
          (omega arith) in
      record {
        digits = w.digits;
        cells = w.cells;
        end = (omega (arith, w.place), w.others (buffer + 49) (omega arith) ∙ ground arith);
        small = w.small;
        number = w.number ∙ in_order;
        leads = λ ne. w.leads (leading base (digit behind) two num ne);
        within = omega (arith, w.near);
        others = λ a out. w.others a (omega (arith, out, w.near)) ∙ ground (arith, out);
      }

-- For a number of 50 to 64 digits, as base 2 has them within 64 bits, the text begins in front of the
-- buffer.
pub itob_underflow :
    (behind : ℕ → ℕ) (base num buffer : ℕ) (mem : ℕ → ℕ)
    → 2 ≤ base
    → base ^ 49 ≤ num
    → num < base ^ 64
    → 64 ≤ buffer
    → (itob behind buffer num base mem).0 < buffer
itob_underflow behind base num buffer mem two long fits room =
    let w =
      rounds behind base num two buffer 63 mem (shorter base (digit behind) two num 63 fits)
        (omega arith) (omega arith) in
    elim (Bool-cases (ltb (itob behind buffer num base mem).0 buffer)) [
      | inl below ↦ ground (arith, below)
      | inr above ↦
          let few : length w.digits ≤ 49 = ground (arith, above, w.place) in
          let small : base ^ length w.digits ≤ base ^ 49 =
            pow-le-pow_right {n = base} (omega arith) few in
          absurd (
            omega (
              arith,
              small,
              value-lt base 0 w.digits w.small,
              w.number,
              in_order behind base num two,
            ))
    ]
