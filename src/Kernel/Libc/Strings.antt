-- ===== src/Kernel/Libc/Strings.antt =====
-- Strings in memory as lists of characters: `strlen`, `strcpy` and `strncpy`.
use orionis_os.Base.{
  ◌∙◌, ℕ, zero, suc, ◌+◌, ◌≤◌, ◌<◌, ◌≡◌, ◌≢◌, ◌⊎◌, List, [], ◌∷◌, some, arith, length, store,
}
use orionis_os.Kernel.Libc.{strlen, strlen_loop, strcpy, strcpy_loop}

-- The string at `s` has the characters `l`.
abbrev pub IsString : (ℕ → ℕ) → ℕ → List ℕ → Type 0
IsString mem s [] = mem s ≡ 0
IsString mem s (c ∷ l) = (mem s ≡ c) × (c ≢ 0) × IsString mem (s + 1) l

strlen_loop_lem :
    (fuel len str k : ℕ) (mem : ℕ → ℕ) (l : List ℕ)
    → k ≡ str + len
    → IsString mem k l
    → length l < fuel
    → strlen_loop fuel len str mem ≡ some (len + length l)
unfolding strlen_loop
strlen_loop_lem zero len str k mem l e h lt = absurd (omega arith)
strlen_loop_lem (suc fuel) len str k mem [] e h lt = ground (arith, e, h)
strlen_loop_lem (suc fuel) len str k mem (c ∷ l) e (here, some_char, rest) lt = ground (
  arith,
  e,
  here,
  some_char,
  strlen_loop_lem fuel (len + 1) str (k + 1) mem l (omega (arith, e)) rest (omega arith),
)

-- With more fuel than characters `strlen` ends and returns their number.
pub strlen-length :
    (fuel str : ℕ) (mem : ℕ → ℕ) (l : List ℕ)
    → IsString mem str l
    → length l < fuel
    → strlen fuel str mem ≡ some (length l)
unfolding strlen
strlen-length fuel str mem l h lt =
    strlen_loop_lem fuel 0 str str mem l (omega arith) h lt ∙ ground arith

-- A byte outside the string does not matter to it.
pub IsString-store :
    (mem : ℕ → ℕ) (s a v : ℕ) (l : List ℕ)
    → (a < s) ⊎ (s + length l < a)
    → IsString mem s l
    → IsString (store mem a v) s l
IsString-store mem s a v [] out h = ground (arith, out, h)
IsString-store mem s a v (c ∷ l) out (here, some_char, rest) = (
  ground (arith, out, here),
  some_char,
  IsString-store mem (s + 1) a v l (omega (arith, out)) rest,
)

-- A copy of the string `l` at `dest`, and nothing else, has been written to `mem`.
pub record IsCopied (mem : ℕ → ℕ) (dest : ℕ) (l : List ℕ) (mem' : ℕ → ℕ) : Type 0 where
  pub copy : IsString mem' dest l
  pub others : (a : ℕ) → (a < dest) ⊎ (dest + length l < a) → mem' a ≡ mem a

strcpy_loop_lem :
    (fuel i dest src k j : ℕ) (mem : ℕ → ℕ) (l : List ℕ)
    → k ≡ src + i
    → j ≡ dest + i
    → (j ≤ k) ⊎ (k + length l < j)
    → IsString mem k l
    → length l < fuel
    → (mem' : ℕ → ℕ) × (strcpy_loop fuel i dest src mem ≡ some mem') × IsCopied mem j l mem'
unfolding strcpy_loop
strcpy_loop_lem zero i dest src k j mem l e d apart h lt = absurd (omega arith)
strcpy_loop_lem (suc fuel) i dest src k j mem [] e d apart h lt = (
  store mem (dest + i) 0,
  ground (arith, e, h),
  record { copy = ground (arith, d); others = λ a out. ground (arith, d, out) },
)
strcpy_loop_lem (suc fuel) i dest src k j mem (c ∷ l) e d apart (here, some_char, rest) lt =
    let mem1 : ℕ → ℕ = store mem (dest + i) (mem (src + i)) in
    let rest1 =
      IsString-store mem (k + 1) (dest + i) (mem (src + i)) l (omega (arith, apart, e, d)) rest in
    let (mem', runs, copied) =
      strcpy_loop_lem fuel (i + 1) dest src (k + 1) (j + 1) mem1 l (omega (arith, e))
        (omega (arith, d)) (omega (arith, apart)) rest1 (omega arith) in
    (
      mem',
      ground (arith, e, here, some_char, runs),
      record {
        copy = (ground (arith, copied.others j (omega arith), d, e, here), some_char, copied.copy);
        others = λ a out. copied.others a (omega (arith, out)) ∙ ground (arith, d, out);
      },
    )

-- With enough fuel, and a destination that does not begin inside the string, `strcpy` ends: the
-- string and its end stand at `dest`, and no other byte has changed.
pub strcpy-IsCopied :
    (fuel dest src : ℕ) (mem : ℕ → ℕ) (l : List ℕ)
    → IsString mem src l
    → (dest ≤ src) ⊎ (src + length l < dest)
    → length l < fuel
    → (mem' : ℕ → ℕ) × (strcpy fuel dest src mem ≡ some mem') × IsCopied mem dest l mem'
unfolding strcpy
strcpy-IsCopied fuel dest src mem l h apart lt =
    strcpy_loop_lem fuel 0 dest src src dest mem l (omega arith) (omega arith) apart h lt
