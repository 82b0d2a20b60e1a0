-- ===== src/Kernel/Buddy/Order.antt =====
-- `get_order`: the smallest order whose blocks hold the size, for sizes up to 2 ^ 63.
use native.Mathlib.Nat.{pow-suc, pow-le-pow_right}
use native.Mathlib.Numerals.{add-one}
use orionis_os.Base.{
  ℕ, zero, suc, ◌+◌, ◌-◌, ◌*◌, ◌^◌, ◌≤◌, ◌<◌, ◌≡◌, refl, none, some, arith, ltb, u64, Bool-cases,
  inl, inr, ◌⊎◌,
}
use orionis_os.Base.{◌==◌, eqb→eq}
use orionis_os.Kernel.Buddy.{min_order, max_order, size_for_order, order_loop, get_order}

-- `order` is the smallest order from `min_order` on with room for `size`.
pub record IsOrderOf (size order : ℕ) : Type 0 where
  pub at_least : min_order ≤ order
  pub holds : size ≤ size_for_order order
  pub smallest : (order ≡ min_order) ⊎ (size_for_order (order - 1) < size)

pow-add_one : (k : ℕ) → 2 ^ (k + 1) ≡ 2 ^ k * 2
pow-add_one k = rw add-one (pow-suc 2 k)

pub pow_mono : (i j : ℕ) → i ≤ j → 2 ^ i ≤ 2 ^ j
pow_mono i j h = pow-le-pow_right (omega arith) h

-- Doubling a block size below 2 ^ 63 does not wrap.
double : (order : ℕ) → order < 63 → u64 (2 ^ order * 2) ≡ 2 ^ (order + 1)
double order h = omega (arith, pow-add_one order, pow_mono (order + 1) 63 (omega arith))

order_loop-IsOrderOf :
    (fuel order size : ℕ)
    → size ≤ 2 ^ 63
    → 63 < fuel + order
    → order ≤ 63
    → min_order ≤ order
    → (order ≡ min_order) ⊎ (size_for_order (order - 1) < size)
    → (o : ℕ) × (order_loop fuel order (2 ^ order) size ≡ some o) × IsOrderOf size o
unfolding order_loop
order_loop-IsOrderOf zero order size small enough le least so_far = absurd (omega arith)
order_loop-IsOrderOf (suc fuel) order size small enough le least so_far =
    elim (Bool-cases (ltb (2 ^ order) size)) [
      | inl more ↦
          let below : order < 63 = ground (arith, pow_mono 63 order) in
          let back : order + 1 - 1 ≡ order = omega arith in
          rw (more, double order below)
            (order_loop-IsOrderOf fuel (order + 1) size small (omega arith) (omega arith)
              (omega arith) (inr (rw back (ground arith))))
      | inr done ↦
          rw done
            (order, refl, record { at_least = least; holds = ground arith; smallest = so_far })
    ]

-- For a size up to 2 ^ 63 `get_order` returns the smallest order, from 12 on, whose blocks are large
-- enough.
pub get_order-IsOrderOf :
    (size : ℕ) → size ≤ 2 ^ 63 → (o : ℕ) × (get_order size ≡ some o) × IsOrderOf size o
unfolding get_order
get_order-IsOrderOf size small =
    order_loop-IsOrderOf 53 min_order size small (omega arith) (omega arith) (omega arith)
      (inl refl)

-- A block size that the loop can reach.
data Reached (b : ℕ) : Type 0 where
  power : (k : ℕ) → k ≤ 63 → b ≡ 2 ^ k → Reached b
  wrapped : b ≡ 0 → Reached b

Reached-lt : {b size : ℕ} → 2 ^ 63 < size → Reached b → b < size
Reached-lt big (power k le e) = omega (arith, pow_mono k 63 le)
Reached-lt big (wrapped e) = omega arith

Reached-double : {b : ℕ} → Reached b → Reached (u64 (b * 2))
Reached-double (wrapped e) = wrapped (rw e refl)
Reached-double {b} (power k le e) = elim (Bool-cases (ltb k 63)) [
  | inl below ↦ power (k + 1) (ground arith) (rw e (double k (ground arith)))
  | inr last ↦ let top : k ≡ 63 = ground arith in wrapped (rw (e, top) refl)
]

order_loop-none :
    (fuel order b size : ℕ) → 2 ^ 63 < size → Reached b → order_loop fuel order b size ≡ none
unfolding order_loop
order_loop-none zero order b size big r = refl
order_loop-none (suc fuel) order b size big r = ground (
  arith,
  Reached-lt big r,
  order_loop-none fuel (order + 1) (u64 (b * 2)) size big (Reached-double r),
)

-- For a size above 2 ^ 63 the loop of `get_order` does not end, whatever the number of rounds.
pub get_order_diverges :
    (fuel size : ℕ) → 2 ^ 63 < size → order_loop fuel min_order (2 ^ min_order) size ≡ none
get_order_diverges fuel size big =
    order_loop-none fuel min_order (2 ^ min_order) size big (power min_order (omega arith) refl)

-- A statement about every order of the free lists, one order at a time.
pub by_order :
    (P : ℕ → Type 0)
    → P 12
    → P 13
    → P 14
    → P 15
    → P 16
    → (o : ℕ) → min_order ≤ o
    → o ≤ max_order
    → P o
by_order P a b c d e o le ge = elim (Bool-cases (o == 12)) [
  | inl h ↦ rw (eqb→eq _ _ h) a
  | inr n12 ↦ elim (Bool-cases (o == 13)) [
    | inl h ↦ rw (eqb→eq _ _ h) b
    | inr n13 ↦ elim (Bool-cases (o == 14)) [
      | inl h ↦ rw (eqb→eq _ _ h) c
      | inr n14 ↦ elim (Bool-cases (o == 15)) [
        | inl h ↦ rw (eqb→eq _ _ h) d
        | inr n15 ↦ let last : o ≡ 16 = ground arith in rw last e
      ]
    ]
  ]
]
