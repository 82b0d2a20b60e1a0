-- ===== src/Limine/Part/Bytes.antt =====
-- Numbers in bytes, the lowest byte first.
use orionis_os.Base.{
  ℕ, zero, suc, ◌+◌, ◌*◌, ◌/◌, ◌%◌, ◌^◌, ◌<◌, ◌≡◌, ◌≢◌, ◌∙◌, refl, sym, ap, subst, arith, true,
  false,
}
use orionis_os.Limine.Part.{little_endian, all_zero}
use native.Mathlib.Nat.{pow-suc, pow-succ', div-div-eq-div-mul}

-- The `n` bytes from a place on are the digits of the number.
abbrev pub HasNumber : (ℕ → ℕ) → ℕ → ℕ → ℕ → Type 0
HasNumber disk place n v = (v < 256 ^ n) × ((i : ℕ) → i < n → disk (place + i) ≡ v / 256 ^ i % 256)

next_digit :
    (disk : ℕ → ℕ) (place v i : ℕ)
    → disk (place + suc i) ≡ v / 256 ^ suc i % 256
    → disk (place + 1 + i) ≡ v / 256 / 256 ^ i % 256
next_digit disk place v i e =
    let same : place + 1 + i ≡ place + suc i = omega arith in
    ap disk same
    ∙ e
    ∙ ap (λ k. k % 256)
        (ap (λ k. v / k) (pow-succ' 256 i) ∙ sym (div-div-eq-div-mul v 256 (256 ^ i)))

pub little_endian-HasNumber :
    (disk : ℕ → ℕ) (place n v : ℕ) → HasNumber disk place n v → little_endian disk place n ≡ v
unfolding little_endian
little_endian-HasNumber disk place zero v (small, digits) = omega (arith, small)
little_endian-HasNumber disk place (suc n) v (small, digits) =
    let power : v < 256 ^ n * 256 = subst (λ k. v < k) (pow-suc 256 n) small in
    let low : disk place ≡ v % 256 =
      ap disk (omega arith) ∙ digits 0 (omega arith) ∙ (omega arith) in
    let rest =
      little_endian-HasNumber disk (place + 1) n (v / 256)
        (omega (arith, power), λ i lt. next_digit disk place v i (digits (suc i) (omega arith))) in
    omega (arith, low, rest)

pub all_zero_lem :
    (disk : ℕ → ℕ) (place n : ℕ)
    → ((i : ℕ) → i < n → disk (place + i) ≡ 0)
    → all_zero disk place n ≡ true
unfolding all_zero
all_zero_lem disk place zero h = refl
all_zero_lem disk place (suc n) h =
    let first : disk place ≡ 0 = subst (λ k. disk k ≡ 0) (omega arith) (h 0 (omega arith)) in
    let rest =
      all_zero_lem disk (place + 1) n
        (λ i lt. subst (λ k. disk k ≡ 0) (omega arith) (h (i + 1) (omega arith))) in
    ground (arith, first, rest)

pub all_zero_no :
    (disk : ℕ → ℕ) (place n i : ℕ) → i < n → disk (place + i) ≢ 0 → all_zero disk place n ≡ false
unfolding all_zero
all_zero_no disk place zero i lt ne = absurd (omega arith)
all_zero_no disk place (suc n) zero lt ne =
    let same : place + 0 ≡ place = omega arith in
    let first : disk place ≢ 0 = subst (λ k. disk k ≢ 0) same ne in ground (arith, first)
all_zero_no disk place (suc n) (suc i) lt ne =
    let rest =
      all_zero_no disk (place + 1) n i (omega arith) (subst (λ k. disk k ≢ 0) (omega arith) ne) in
    ground (arith, rest)
