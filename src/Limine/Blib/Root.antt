-- ===== src/Limine/Blib/Root.antt =====
-- `sqrt` rounds the square root down.
use orionis_os.Base.{
  ℕ, zero, suc, ◌+◌, ◌-◌, ◌*◌, ◌/◌, ◌^◌, ◌≤◌, ◌<◌, ◌≡◌, ◌⊎◌, inl, inr, subst, refl, arith, true,
  false, Bool-cases, ltb, leb, all_below, all_below_sound, ◌==◌, u64,
}
use native.Mathlib.Nat.{pow-succ'}
use orionis_os.Limine.Blib.{start_loop, root_loop, sqrt}

-- The root `x` of `n` in units of `q`, where `op` is what is left of `n`.
record IsPart (n q x op res : ℕ) : Type 0 where
  scaled : res ≡ x * q
  left : n ≡ x * (x * q) + op
  near : op < (2 * x + 1) * q
  room : (x + 1) * q ≤ 2 ^ 64

pub record IsRoot (n r : ℕ) : Type 0 where
  pub low : r * r ≤ n
  pub high : n < (r + 1) * (r + 1)

some_power : (k : ℕ) → 0 < 4 ^ k
some_power zero = omega arith
some_power (suc k) =
    let power : 4 ^ suc k ≡ 4 * 4 ^ k = pow-succ' 4 k in omega (arith, power, some_power k)

module _ (x p : ℕ) where
  -- The products of a round, in terms of x * p and x * (x * p).
  products :
      (x * (4 * p) ≡ 4 * (x * p))
      × (x * (x * (4 * p)) ≡ 4 * (x * (x * p)))
      × ((2 * x + 1) * (4 * p) ≡ 8 * (x * p) + 4 * p)
      × ((x + 1) * (4 * p) ≡ 4 * (x * p) + 4 * p)
  products = (grind arith, grind arith, grind arith, grind arith)

  products_set :
      ((2 * x + 1) * p ≡ 2 * (x * p) + p)
      × ((2 * x + 1) * ((2 * x + 1) * p) ≡ 4 * (x * (x * p)) + 4 * (x * p) + p)
      × ((2 * (2 * x + 1) + 1) * p ≡ 4 * (x * p) + 3 * p)
      × ((2 * x + 1 + 1) * p ≡ 2 * (x * p) + 2 * p)
  products_set = (grind arith, grind arith, grind arith, grind arith)

  products_clear :
      (2 * x * p ≡ 2 * (x * p))
      × (2 * x * (2 * x * p) ≡ 4 * (x * (x * p)))
      × ((2 * (2 * x) + 1) * p ≡ 4 * (x * p) + p)
      × ((2 * x + 1) * p ≡ 2 * (x * p) + p)
  products_clear = (grind arith, grind arith, grind arith, grind arith)

  module _ (n op res : ℕ) (h : IsPart n (4 * p) x op res) where
    bit_set : res + p ≤ op → IsPart n p (2 * x + 1) (op - (res + p)) ((res + 2 * p) / 2)
    bit_set le =
        let f1 = h.scaled in
        let f2 = h.left in
        let f3 = h.near in
        let f4 = h.room in
        record {
          scaled = omega (arith, f1, f2, f3, f4, le, products, products_set);
          left = omega (arith, f1, f2, f3, f4, le, products, products_set);
          near = omega (arith, f1, f2, f3, f4, le, products, products_set);
          room = omega (arith, f1, f2, f3, f4, le, products, products_set);
        }

    bit_clear : op < res + p → IsPart n p (2 * x) op (res / 2)
    bit_clear lt =
        let f1 = h.scaled in
        let f2 = h.left in
        let f3 = h.near in
        let f4 = h.room in
        record {
          scaled = omega (arith, f1, f2, f3, f4, lt, products, products_clear);
          left = omega (arith, f1, f2, f3, f4, lt, products, products_clear);
          near = omega (arith, f1, f2, f3, f4, lt, products, products_clear);
          room = omega (arith, f1, f2, f3, f4, lt, products, products_clear);
        }

    no_wrap : 0 < p → (u64 (res + p) ≡ res + p) × (u64 (res + u64 (2 * p)) ≡ res + 2 * p)
    no_wrap some_unit =
        let f1 = h.scaled in
        let f4 = h.room in
        (omega (arith, f1, f4, products, some_unit), omega (arith, f1, f4, products, some_unit))

round :
    (fuel n p x op res : ℕ)
    → 0 < p
    → IsPart n (4 * p) x op res
    → (x' : ℕ) × (op' : ℕ) × (res' : ℕ) × IsPart n p x' op' res'
      × (root_loop (suc fuel) p op res ≡ root_loop fuel (p / 4) op' res')
unfolding root_loop
round fuel n p x op res some_unit h =
    let (sum, double) = no_wrap x p n op res h some_unit in
    let more : (p == 0) ≡ false = ground (arith, some_unit) in
    elim (Bool-cases (leb (res + p) op)) [
      | inl set ↦ (
        2 * x + 1,
        op - (res + p),
        (res + 2 * p) / 2,
        bit_set x p n op res h (ground (arith, set)),
        rw (root_loop, more, sum, double, set) refl,
      )
      | inr clear ↦ (
        2 * x,
        op,
        res / 2,
        bit_clear x p n op res h (ground (arith, clear)),
        rw (root_loop, more, sum, clear) refl,
      )
    ]

root_loop-zero : (fuel op res : ℕ) → root_loop fuel 0 op res ≡ res
unfolding root_loop
root_loop-zero zero op res = refl
root_loop-zero (suc fuel) op res = refl

part-IsRoot : (n x op res : ℕ) → IsPart n 1 x op res → IsRoot n res
part-IsRoot n x op res h =
    let f1 = h.scaled in
    let f2 = h.left in
    let f3 = h.near in
    let root : res ≡ x = omega (arith, f1) in
    let square : (x + 1) * (x + 1) ≡ x * (x * 1) + 2 * x + 1 = grind arith in
    let plain : x * x ≡ x * (x * 1) = grind arith in
    rw root (record { low = omega (arith, f2, plain); high = omega (arith, f2, f3, square) })

-- From the unit 4 ^ k on, with fuel for one more round than k.
root_loop-IsRoot :
    (k fuel n x op res : ℕ)
    → k < fuel
    → IsPart n (4 * 4 ^ k) x op res
    → IsRoot n (root_loop fuel (4 ^ k) op res)
root_loop-IsRoot k zero n x op res lt h = absurd (omega arith)
root_loop-IsRoot zero (suc fuel) n x op res lt h =
    let (x', op', res', h', step) = round fuel n 1 x op res (omega arith) h in
    rw (step, root_loop-zero fuel op' res') (part-IsRoot n x' op' res' h')
root_loop-IsRoot (suc k) (suc fuel) n x op res lt h =
    let power : 4 ^ suc k ≡ 4 * 4 ^ k = pow-succ' 4 k in
    let unit : 0 < 4 * 4 ^ k = omega (arith, some_power k) in
    let (x', op', res', h', step) =
      round fuel n (4 * 4 ^ k) x op res unit (subst (λ p. IsPart n (4 * p) x op res) power h) in
    let quarter : 4 * 4 ^ k / 4 ≡ 4 ^ k = omega arith in
    rw (power, step, quarter) (root_loop-IsRoot k fuel n x' op' res' (omega arith) h')

-- The first loop finds the largest power of 4 that is not above the number, or 0.
start_loop_lem :
    (k n : ℕ)
    → n < 4 * 4 ^ k
    → ((n ≡ 0) × (start_loop (suc k) (4 ^ k) n ≡ 0))
      ⊎ ((j : ℕ) × (j ≤ k) × (start_loop (suc k) (4 ^ k) n ≡ 4 ^ j) × (n < 4 * 4 ^ j))
unfolding start_loop
start_loop_lem zero n lt = elim (Bool-cases (ltb n 1)) [
  | inl less ↦ inl (ground (arith, less), rw less refl)
  | inr not_less ↦ inr (0, omega arith, rw not_less refl, lt)
]
start_loop_lem (suc k) n lt =
    let power : 4 ^ suc k ≡ 4 * 4 ^ k = pow-succ' 4 k in
    let quarter : 4 * 4 ^ k / 4 ≡ 4 ^ k = omega arith in
    elim (Bool-cases (ltb n (4 * 4 ^ k))) [
      | inr not_less ↦ inr (suc k, omega arith, rw (start_loop, power, not_less) refl, lt)
      | inl less ↦ elim (start_loop_lem k n (ground (arith, less))) [
        | inl (e, ends) ↦ inl (e, rw (start_loop, power, less, quarter, ends) refl)
        | inr (j, le, ends, lt') ↦
            inr (j, omega (arith, le), rw (start_loop, power, less, quarter, ends) refl, lt')
      ]
    ]

powers_fit : all_below 32 (λ j. leb (4 * 4 ^ j) (2 ^ 64)) ≡ true
unfolding all_below
powers_fit = refl

first-IsPart : (j n : ℕ) → j ≤ 31 → n < 4 * 4 ^ j → IsPart n (4 * 4 ^ j) 0 n 0
first-IsPart j n le near =
    let fits =
      all_below_sound 32 j (λ i. leb (4 * 4 ^ i) (2 ^ 64)) powers_fit (omega (arith, le)) in
    let top : 4 * 4 ^ j ≤ 2 ^ 64 = ground (arith, fits) in
    record {
      scaled = omega arith;
      left = omega arith;
      near = omega (arith, near);
      room = omega (arith, top);
    }

-- `sqrt` of a number of 64 bits is the largest number whose square is not above it.
pub sqrt-IsRoot : (n : ℕ) → n < 2 ^ 64 → IsRoot n (sqrt n)
unfolding sqrt
sqrt-IsRoot n lt = elim (start_loop_lem 31 n (omega (arith, lt))) [
  | inl (e, ends) ↦
      rw (sqrt, ends, root_loop-zero 32 n 0) (record { low = omega arith; high = omega (arith, e) })
  | inr (j, le, ends, near) ↦
      rw (sqrt, ends) (root_loop-IsRoot j 32 n 0 n 0 (omega (arith, le)) (first-IsPart j n le near))
]
