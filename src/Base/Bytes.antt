-- ===== src/Base/Bytes.antt =====
-- Bytes: bit operations on them, checked value by value, and a memory of bytes.
use Prim.Native.Nat.{ℕ, zero, suc, ◌-◌, ◌%◌, ◌^◌, ◌<◌, bit_and, bit_or}
use mathlib.Core.Path.{◌≡◌, refl}
use mathlib.Core.Bool.{Bool, true, false, not, ◌&&◌}
use native.Mathlib.Omega.{arith}
use orionis_os.Base.Tests.{ltb, ◌==◌, if◌then◌else◌}

abbrev pub u8 : ℕ → ℕ
u8 n = n % 2 ^ 8

abbrev pub u32 : ℕ → ℕ
u32 n = n % 2 ^ 32

abbrev pub u64 : ℕ → ℕ
u64 n = n % 2 ^ 64

-- `b |= 1 << k`, `b &= ~(1 << k)` and `b & (1 << k)` on a `uint8_t`.
unfoldable pub set_bit : ℕ → ℕ → ℕ
set_bit b k = u8 (bit_or b (2 ^ k))

unfoldable pub clear_bit : ℕ → ℕ → ℕ
clear_bit b k = bit_and b (255 - 2 ^ k)

unfoldable pub test_bit : ℕ → ℕ → Bool
test_bit b k = not (bit_and b (2 ^ k) == 0)

abbrev same : Bool → Bool → Bool
same true b = b
same false b = not b

same→eq : (a b : Bool) → same a b ≡ true → a ≡ b
same→eq a b h = ground arith

unfoldable pub all_below : ℕ → (ℕ → Bool) → Bool
all_below zero p = true
all_below (suc n) p = p n && all_below n p

pub all_below_sound : (n x : ℕ) (p : ℕ → Bool) → all_below n p ≡ true → x < n → p x ≡ true
unfolding all_below
all_below_sound zero x p h lt = absurd (omega arith)
all_below_sound (suc n) x p h lt = ground (arith, all_below_sound n x p)

abbrev set_row : ℕ → ℕ → ℕ → Bool
set_row b k j = same (test_bit (set_bit b k) j) (if j == k then true else test_bit b j)

abbrev clear_row : ℕ → ℕ → ℕ → Bool
clear_row b k j = same (test_bit (clear_bit b k) j) (if j == k then false else test_bit b j)

abbrev table : (ℕ → ℕ → ℕ → Bool) → Bool
table row = all_below 256 (λ b. all_below 8 (λ k. all_below 8 (λ j. row b k j)))

set_table : table set_row ≡ true
unfolding all_below set_bit test_bit
set_table = refl

clear_table : table clear_row ≡ true
unfolding all_below clear_bit test_bit
clear_table = refl

table_sound :
    (row : ℕ → ℕ → ℕ → Bool) (b k j : ℕ)
    → table row ≡ true
    → b < 256
    → k < 8
    → j < 8
    → row b k j ≡ true
table_sound row b k j h hb hk hj =
    all_below_sound 8 j _ (all_below_sound 8 k _ (all_below_sound 256 b _ h hb) hk) hj

pub test_bit-set_bit :
    (b k j : ℕ)
    → b < 256
    → k < 8
    → j < 8
    → test_bit (set_bit b k) j ≡ (if j == k then true else test_bit b j)
test_bit-set_bit b k j hb hk hj = same→eq _ _ (table_sound set_row b k j set_table hb hk hj)

pub test_bit-clear_bit :
    (b k j : ℕ)
    → b < 256
    → k < 8
    → j < 8
    → test_bit (clear_bit b k) j ≡ (if j == k then false else test_bit b j)
test_bit-clear_bit b k j hb hk hj = same→eq _ _ (table_sound clear_row b k j clear_table hb hk hj)

pub set_bit-lt : (b k : ℕ) → set_bit b k < 256
unfolding set_bit
set_bit-lt b k = omega arith

clear_lt_table : all_below 256 (λ b. all_below 8 (λ k. ltb (clear_bit b k) 256)) ≡ true
unfolding all_below clear_bit
clear_lt_table = refl

pub clear_bit-lt : (b k : ℕ) → b < 256 → k < 8 → clear_bit b k < 256
clear_bit-lt b k hb hk =
    ground (arith, all_below_sound 8 k _ (all_below_sound 256 b _ clear_lt_table hb) hk)

full_table : all_below 8 (λ k. test_bit 255 k) ≡ true
unfolding all_below test_bit
full_table = refl

pub test_bit_full : (k : ℕ) → k < 8 → test_bit 255 k ≡ true
test_bit_full k h = all_below_sound 8 k _ full_table h

-- A byte is written; every other stays.
abbrev pub store : (ℕ → ℕ) → ℕ → ℕ → ℕ → ℕ
store m a v b = if a == b then v else m b

abbrev pub IsBytes : (ℕ → ℕ) → Type 0
IsBytes m = (a : ℕ) → m a < 256
