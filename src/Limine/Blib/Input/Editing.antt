-- ===== src/Limine/Blib/Input/Editing.antt =====
-- `gets` against an editor on the two parts of the line, in front of the cursor (the last character first)
-- and behind it.
use orionis_os.Base.{
  ℕ, zero, suc, ◌+◌, ◌≤◌, ◌<◌, ◌≡◌, ◌≢◌, ◌⊎◌, ◌∙◌, refl, arith, false, some, List, [], ◌∷◌,
  Bool-cases, inl, inr, ◌==◌, length, store,
}
use orionis_os.Kernel.Libc.Strings.{IsString, IsString-store}
use orionis_os.Limine.Blib.Input.{shift_down, shift_up}

-- The first part in front of the second one.
unfoldable pub joined : List ℕ → List ℕ → List ℕ
joined [] r = r
joined (c ∷ l) r = joined l (c ∷ r)

-- The characters in front of index `length l`, from the last to the first.
abbrev pub IsBefore : (ℕ → ℕ) → List ℕ → Type 0
IsBefore buf [] = Unit
IsBefore buf (c ∷ l) = (buf (length l) ≡ c) × (c ≢ 0) × IsBefore buf l

pub IsString-joined :
    (buf : ℕ → ℕ) (l r : List ℕ)
    → IsBefore buf l
    → IsString buf (length l) r
    → IsString buf 0 (joined l r)
unfolding joined
IsString-joined buf [] r before behind = behind
IsString-joined buf (c ∷ l) r (here, some_char, before) behind =
    let next : length l + 1 ≡ suc (length l) = omega arith in
    IsString-joined buf l (c ∷ r) before (here, some_char, rw next behind)

pub length-joined : (l r : List ℕ) → length (joined l r) ≡ length l + length r
unfolding joined
length-joined [] r = omega arith
length-joined (c ∷ l) r = omega (arith, length-joined l (c ∷ r))

pub IsBefore-same :
    (buf buf' : ℕ → ℕ) (l : List ℕ)
    → ((a : ℕ) → a < length l → buf' a ≡ buf a)
    → IsBefore buf l
    → IsBefore buf' l
IsBefore-same buf buf' [] same h = tt
IsBefore-same buf buf' (c ∷ l) same (here, some_char, h) = (
  same (length l) (omega arith) ∙ here,
  some_char,
  IsBefore-same buf buf' l (λ a lt. same a (omega (arith, lt))) h,
)

-- A string that stands one place higher in another memory.
pub IsString-up :
    (buf buf' : ℕ → ℕ) (i j : ℕ) (r : List ℕ)
    → j ≡ i + 1
    → ((a : ℕ) → i ≤ a → a ≤ i + length r → buf' (a + 1) ≡ buf a)
    → IsString buf i r
    → IsString buf' j r
IsString-up buf buf' i j [] e same h = ground (arith, e, h, same i (omega arith) (omega arith))
IsString-up buf buf' i j (c ∷ r) e same (here, some_char, h) = (
  ground (arith, e, here, same i (omega arith) (omega arith)),
  some_char,
  IsString-up buf buf' (i + 1) (j + 1) r (omega (arith, e))
      (λ a low high. same a (omega (arith, low)) (omega (arith, high))) h,
)

pub shift_up_lem :
    (j i : ℕ) (buf : ℕ → ℕ)
    → i ≤ j
    → (buf' : ℕ → ℕ) × (shift_up j i buf ≡ some buf')
      × ((a : ℕ) → i ≤ a → a ≤ j → buf' (a + 1) ≡ buf a)
      × ((a : ℕ) → (a ≤ i) ⊎ (j + 1 < a) → buf' a ≡ buf a)
unfolding shift_up
shift_up_lem zero i buf le = (
  store buf 1 (buf 0),
  ground (arith, le),
  (λ a low high. ground (arith, low, high)),
  λ a out. ground (arith, out, le),
)
shift_up_lem (suc j) i buf le = elim (Bool-cases (suc j == i)) [
  | inl last ↦ (
    store buf (suc j + 1) (buf (suc j)),
    rw (shift_up, last) refl,
    (λ a low high. ground (arith, low, high, last)),
    λ a out. ground (arith, out, last),
  )
  | inr more ↦
      let below : i ≤ j = ground (arith, le, more) in
      let (buf', e, moved, others) = shift_up_lem j i (store buf (suc j + 1) (buf (suc j))) below in
      (
        buf',
        rw (shift_up, more) e,
        (λ a low high. elim (Bool-cases (a == suc j)) [
          | inl top ↦ ground (arith, top, others (a + 1) (inr (ground (arith, top))))
          | inr not_top ↦
              ground (arith, not_top, low, high, moved a low (ground (arith, high, not_top)))
        ]),
        λ a out. ground (arith, out, below, others a (omega (arith, out))),
      )
]

pub shift_down_lem :
    (n j : ℕ) (r : List ℕ) (buf : ℕ → ℕ)
    → length r < n
    → IsString buf (j + 1) r
    → (buf' : ℕ → ℕ) × (shift_down n j buf ≡ some buf')
      × IsString buf' j r
      × ((a : ℕ) → (a < j) ⊎ (j + length r < a) → buf' a ≡ buf a)
unfolding shift_down
shift_down_lem zero j r buf lt h = absurd (omega arith)
shift_down_lem (suc n) j [] buf lt h =
    (store buf j (buf (j + 1)), ground (arith, h), ground (arith, h), λ a out. ground (arith, out))
shift_down_lem (suc n) j (c ∷ r) buf lt (here, some_char, h) =
    let (buf', e, string, others) =
      shift_down_lem n (j + 1) r (store buf j (buf (j + 1))) (omega arith)
        (IsString-store buf (j + 1 + 1) j (buf (j + 1)) r (omega arith) h) in
    let goes_on : (store buf j (buf (j + 1)) j == 0) ≡ false = ground (arith, here, some_char) in
    (
      buf',
      rw (shift_down, goes_on) e,
      (ground (arith, here, others j (omega arith)), some_char, string),
      λ a out. ground (arith, out, others a (omega (arith, out))),
    )
