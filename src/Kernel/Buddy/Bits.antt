-- ===== src/Kernel/Buddy/Bits.antt =====
-- What `get_buddy` computes: on a block aligned to its order, `^` with the block's size adds the
-- size or takes it away.
use Prim.Native.Nat.{differ, bit_xor, digits, bit_xor-bitwise}
use native.Mathlib.Nat.{pow-suc}
use orionis_os.Base.{
  ℕ, zero, suc, ◌+◌, ◌-◌, ◌*◌, ◌/◌, ◌%◌, ◌^◌, ◌≤◌, ◌<◌, ◌≡◌, refl, ap, arith, ◌==◌, if◌then◌else◌,
}
use orionis_os.Kernel.Buddy.{get_buddy}

abbrev xor_digits : ℕ → ℕ → ℕ → ℕ
xor_digits n a b = digits (λ b. b) differ n a b

xor_digits_fuel : (n m a b : ℕ) → a ≤ n → a ≤ m → xor_digits n a b ≡ xor_digits m a b
xor_digits_fuel zero zero a b p q = refl
xor_digits_fuel zero (suc m) zero b p q = refl
xor_digits_fuel zero (suc m) (suc a) b p q = absurd (omega arith)
xor_digits_fuel (suc n) zero zero b p q = refl
xor_digits_fuel (suc n) zero (suc a) b p q = absurd (omega arith)
xor_digits_fuel (suc n) (suc m) zero b p q = refl
xor_digits_fuel (suc n) (suc m) (suc a) b p q =
    omega (arith, xor_digits_fuel n m (suc a / 2) (b / 2) (omega arith) (omega arith))

zero-bit_xor : (b : ℕ) → bit_xor 0 b ≡ b
zero-bit_xor b = bit_xor-bitwise 0 b

bit_xor-suc :
    (a b : ℕ) → bit_xor (suc a) b ≡ bit_xor (suc a / 2) (b / 2) * 2 + differ (suc a % 2) (b % 2)
bit_xor-suc a b = omega (
  arith,
  bit_xor-bitwise (suc a) b,
  bit_xor-bitwise (suc a / 2) (b / 2),
  xor_digits_fuel a (suc a / 2) (suc a / 2) (b / 2) (omega arith) (omega arith),
)

differ_digits : (x y : ℕ) → x < 2 → y < 2 → differ x y ≡ (if x == y then 0 else 1)
differ_digits zero y hx hy = ground arith
differ_digits (suc zero) zero hx hy = refl
differ_digits (suc zero) (suc y) hx hy = ground arith
differ_digits (suc (suc x)) y hx hy = absurd (omega arith)

bit_xor_step : (a b : ℕ) → bit_xor a b ≡ bit_xor (a / 2) (b / 2) * 2 + differ (a % 2) (b % 2)
bit_xor_step zero b = omega (arith, zero-bit_xor b, zero-bit_xor (b / 2))
bit_xor_step (suc a) b = bit_xor-suc a b

bit_xor-zero_fuel : (n a : ℕ) → a ≤ n → bit_xor a 0 ≡ a
bit_xor-zero_fuel n zero h = refl
bit_xor-zero_fuel zero (suc a) h = absurd (omega arith)
bit_xor-zero_fuel (suc n) (suc a) h = ground (
  arith,
  bit_xor_step (suc a) 0,
  bit_xor-zero_fuel n (suc a / 2) (omega arith),
  differ_digits (suc a % 2) 0 (omega arith) (omega arith),
)

-- The neighbour with the last binary digit turned round.
abbrev pub flip : ℕ → ℕ
flip q = if q % 2 == 0 then q + 1 else q - 1

bit_xor-one : (q : ℕ) → bit_xor q 1 ≡ flip q
bit_xor-one q = ground (
  arith,
  bit_xor_step q 1,
  bit_xor-zero_fuel (q / 2) (q / 2),
  differ_digits (q % 2) 1 (omega arith) (omega arith),
)

bit_xor-double : (a b : ℕ) → bit_xor (a * 2) (b * 2) ≡ bit_xor a b * 2
bit_xor-double a b =
    ground (arith, bit_xor_step (a * 2) (b * 2), differ_digits (a * 2 % 2) (b * 2 % 2))

double-pow : (k q : ℕ) → q * 2 ^ suc k ≡ q * 2 ^ k * 2
double-pow k q = omega (arith, ap (λ (t : ℕ). q * t) (pow-suc 2 k))

bit_xor_block : (k q : ℕ) → bit_xor (q * 2 ^ k) (1 * 2 ^ k) ≡ flip q * 2 ^ k
bit_xor_block zero q =
    let one : (x : ℕ) → x * 2 ^ 0 ≡ x = λ x. omega arith in
    rw (one q, one 1, one (flip q)) (bit_xor-one q)
bit_xor_block (suc k) q =
    rw (double-pow k q, double-pow k 1, double-pow k (flip q), bit_xor-double, bit_xor_block k q)

pub get_buddy-block : (order q : ℕ) → get_buddy (q * 2 ^ order) order ≡ flip q * 2 ^ order
unfolding get_buddy
get_buddy-block order q =
    let one : 1 * 2 ^ order ≡ 2 ^ order = omega arith in rw one at (bit_xor_block order q)
