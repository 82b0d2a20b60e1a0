-- ===== src/Base/Digits.antt =====
-- The loop with which the number printers write digits from the end of a buffer, and the number that
-- the digits stand for.
use Prim.Native.Nat.{ℕ, zero, suc, ◌+◌, ◌-◌, ◌*◌, ◌/◌, ◌%◌, ◌^◌, ◌≤◌, ◌<◌}
use mathlib.Core.Path.{◌≡◌, refl, ap, sym, subst, ◌∙◌}
use mathlib.Core.Logic.{◌≢◌, ◌⊎◌, inl, inr}
use mathlib.Core.Bool.{true}
use mathlib.Core.List.{List, [], ◌∷◌}
use native.Mathlib.Omega.{arith}
use native.Mathlib.Nat.{div-add-mod', mod-lt, div-lt_iff_lt-mul, pow-suc, pow-zero}
use orionis_os.Base.Tests.{◌==◌, if◌then◌else◌, Bool-cases}
use orionis_os.Base.Lists.{length, All}
use orionis_os.Base.Bytes.{store}

-- Writes the digits of `x` in front of cell `i` and returns the cell of the first one.
unfoldable pub write_digits : ℕ → ℕ → (ℕ → ℕ) → ℕ → ℕ → (ℕ → ℕ) → ℕ × (ℕ → ℕ)
write_digits zero base digit i x buf = (i, buf)
write_digits (suc fuel) base digit i x buf =
    let rest =
      write_digits fuel base digit (i - 1) (x / base) (store buf (i - 1) (digit (x % base))) in
    if x == 0 then (i, buf) else rest

-- The number with the digits `ds`, behind a number `x`.
unfoldable pub value : ℕ → ℕ → List ℕ → ℕ
value base x [] = x
value base x (d ∷ ds) = value base (x * base + d) ds

-- The cells from `i` on show the digits.
abbrev pub Shown : (ℕ → ℕ) → (ℕ → ℕ) → ℕ → List ℕ → Type 0
Shown digit buf i [] = Unit
Shown digit buf i (d ∷ ds) = (buf i ≡ digit d) × Shown digit buf (i + 1) ds

-- No digit 0 stands in front.
abbrev pub Leads : List ℕ → Type 0
Leads [] = Unit
Leads (d ∷ ds) = d ≢ 0

-- What stands in the buffer behind a run of the loop over `x`, where the digits `ds` stood before.
pub record IsWritten (base n : ℕ) (digit : ℕ → ℕ) (i x : ℕ) (ds : List ℕ) (buf : ℕ → ℕ) (j : ℕ)
    (buf' : ℕ → ℕ) : Type 0 where
  pub digits : List ℕ
  pub cells : Shown digit buf' j digits
  pub place : j + length digits ≡ i + length ds
  pub small : All (λ d. d < base) digits
  pub number : value base 0 digits ≡ value base x ds
  pub leads : (x ≢ 0) ⊎ Leads ds → Leads digits
  pub below : j ≤ i
  pub near : i ≤ j + n
  pub others : (a : ℕ) → (a < j) ⊎ (i ≤ a) → buf' a ≡ buf a

Shown-store :
    (digit buf : ℕ → ℕ) (a v i : ℕ) (ds : List ℕ)
    → a < i
    → Shown digit buf i ds
    → Shown digit (store buf a v) i ds
Shown-store digit buf a v i [] lt h = tt
Shown-store digit buf a v i (d ∷ ds) lt (here, rest) =
    (ground (arith, here), Shown-store digit buf a v (i + 1) ds (omega arith) rest)

stays :
    (base n : ℕ) (digit : ℕ → ℕ) (i x : ℕ) (ds : List ℕ) (buf : ℕ → ℕ)
    → Shown digit buf i ds
    → All (λ d. d < base) ds
    → x ≡ 0
    → IsWritten base n digit i x ds buf i buf
stays base n digit i x ds buf shown small none_left = record {
  digits = ds;
  cells = shown;
  place = refl;
  small = small;
  number = ap (λ y. value base y ds) (sym none_left);
  leads = λ h. elim h [ inl ne ↦ absurd (ne none_left) | inr h ↦ h ];
  others = λ a out. refl;
  below = omega arith;
  near = omega arith;
}

module _ (base : ℕ) (digit : ℕ → ℕ) (two : 2 ≤ base) where
  pub shorter : (x n : ℕ) → x < base ^ suc n → x / base < base ^ n
  shorter x n h =
      let e : base ^ suc n ≡ base ^ n * base = pow-suc base n in
      (div-lt_iff_lt-mul (omega arith)).1 (omega (arith, e))

  pub digit-lt : (x : ℕ) → x % base < base
  digit-lt x = mod-lt x (omega arith)

  -- The next digit, or what is left, is not 0.
  pub leading : (x : ℕ) → x ≢ 0 → (x / base ≢ 0) ⊎ (x % base ≢ 0)
  leading x ne = elim (Bool-cases (x / base == 0)) [
    | inl last ↦
        let q : x / base ≡ 0 = ground (arith, last) in
        let last_zero : x / base * base ≡ 0 = rw q (omega arith) in
        inr (λ z. ne (omega (arith, div-add-mod' x base, z, last_zero)))
    | inr more ↦ inl (ground (arith, more))
  ]

  -- With fuel and cells for `n` digits, of which `x` has no more, the loop writes the digits of `x`.
  pub write_digits_lem :
      (fuel n i x : ℕ) (ds : List ℕ) (buf : ℕ → ℕ)
      → x < base ^ n
      → n ≤ fuel
      → n ≤ i
      → Shown digit buf i ds
      → All (λ d. d < base) ds
      → IsWritten base n digit i x ds buf
          (write_digits fuel base digit i x buf).0
          (write_digits fuel base digit i x buf).1
  unfolding write_digits value
  write_digits_lem zero zero i x ds buf lt f room shown small =
      stays base 0 digit i x ds buf shown small (omega (arith, pow-zero base))
  write_digits_lem zero (suc n) i x ds buf lt f room shown small = absurd (omega arith)
  write_digits_lem (suc fuel) zero i x ds buf lt f room shown small =
      let zero_left : x ≡ 0 = omega (arith, pow-zero base) in
      let none_left : (x == 0) ≡ true = ground (arith, zero_left) in
      rw none_left (stays base 0 digit i x ds buf shown small zero_left)
  write_digits_lem (suc fuel) (suc n) i x ds buf lt f room shown small =
      elim (Bool-cases (x == 0)) [
        | inl none_left ↦
            rw none_left
              (stays base (suc n) digit i x ds buf shown small (ground (arith, none_left)))
        | inr some_left ↦
            let next : ℕ → ℕ = store buf (i - 1) (digit (x % base)) in
            let after : i ≡ i - 1 + 1 = omega arith in
            let written =
              write_digits_lem fuel n (i - 1) (x / base) (x % base ∷ ds) next (shorter x n lt)
                (omega arith) (omega arith)
                (
                  ground arith,
                  subst (λ k. Shown digit next k ds) after
                      (Shown-store digit buf (i - 1) (digit (x % base)) i ds (omega arith) shown),
                )
                (digit-lt x, small) in
            rw some_left (record {
              digits = written.digits;
              cells = written.cells;
              place = omega (arith, written.place);
              small = written.small;
              number = written.number ∙ ap (λ y. value base y ds) (div-add-mod' x base);
              leads = λ h. written.leads (leading x (ground (arith, some_left)));
              others = λ a out.
                  written.others a (omega (arith, out)) ∙ ground (arith, out, written.below);
              below = omega (arith, written.below);
              near = omega (arith, written.near);
            })
      ]

pub value-lt :
    (base x : ℕ) (ds : List ℕ)
    → All (λ d. d < base) ds
    → value base x ds < (x + 1) * base ^ length ds
unfolding value
value-lt base x [] h = let e : base ^ 0 ≡ 1 = pow-zero base in rw e (omega arith)
value-lt base x (d ∷ ds) (small, h) =
    let ih = value-lt base (x * base + d) ds h in
    let e : base ^ suc (length ds) ≡ base ^ length ds * base = pow-suc base (length ds) in
    let grows : (x * base + d + 1) * base ^ length ds ≤ (x + 1) * base * base ^ length ds =
      grind arith in
    rw e (grind (arith, ih, grows))
