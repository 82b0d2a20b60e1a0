-- ===== src/Kernel/Libc/Compare.antt =====
-- `strcmp` and `strncmp` against the comparison of lists of characters.
use orionis_os.Base.{
  ℕ, zero, suc, ◌+◌, ◌<◌, ◌≡◌, refl, List, [], ◌∷◌, some, arith, ◌==◌, length, take, ℤ, pos, negsuc,
  if◌then◌else◌,
}
use orionis_os.Kernel.Libc.{char_ltb, strcmp, strcmp_loop, strncmp, strncmp_loop}
use orionis_os.Kernel.Libc.Strings.{IsString}

-- The order of a dictionary over signed characters; the end of a string counts as a character 0.
unfoldable pub dictionary : List ℕ → List ℕ → ℤ
dictionary [] [] = pos 0
dictionary [] (d ∷ m) = if char_ltb 0 d then negsuc 0 else pos 1
dictionary (c ∷ l) [] = if char_ltb c 0 then negsuc 0 else pos 1
dictionary (c ∷ l) (d ∷ m) =
    if c == d then dictionary l m else (if char_ltb c d then negsuc 0 else pos 1)

strcmp_loop_lem :
    (fuel i s1 s2 k1 k2 : ℕ) (mem : ℕ → ℕ) (l m : List ℕ)
    → k1 ≡ s1 + i
    → k2 ≡ s2 + i
    → IsString mem k1 l
    → IsString mem k2 m
    → length l < fuel
    → strcmp_loop fuel i s1 s2 mem ≡ some (dictionary l m)
unfolding strcmp_loop dictionary
strcmp_loop_lem zero i s1 s2 k1 k2 mem l m e1 e2 h1 h2 lt = absurd (omega arith)
strcmp_loop_lem (suc fuel) i s1 s2 k1 k2 mem [] [] e1 e2 h1 h2 lt = ground (arith, e1, e2, h1, h2)
strcmp_loop_lem (suc fuel) i s1 s2 k1 k2 mem [] (d ∷ m) e1 e2 h1 (h2, n2, r2) lt =
    ground (arith, e1, e2, h1, h2, n2)
strcmp_loop_lem (suc fuel) i s1 s2 k1 k2 mem (c ∷ l) [] e1 e2 (h1, n1, r1) h2 lt =
    ground (arith, e1, e2, h1, h2, n1)
strcmp_loop_lem (suc fuel) i s1 s2 k1 k2 mem (c ∷ l) (d ∷ m) e1 e2 (h1, n1, r1) (h2, n2, r2) lt =
    ground (
      arith,
      e1,
      e2,
      h1,
      h2,
      n1,
      strcmp_loop_lem fuel (i + 1) s1 s2 (k1 + 1) (k2 + 1) mem l m (omega (arith, e1))
          (omega (arith, e2)) r1 r2 (omega arith),
    )

-- With more fuel than the first string has characters `strcmp` ends and compares the two strings in
-- the order of the dictionary.
pub strcmp-dictionary :
    (fuel s1 s2 : ℕ) (mem : ℕ → ℕ) (l m : List ℕ)
    → IsString mem s1 l
    → IsString mem s2 m
    → length l < fuel
    → strcmp fuel s1 s2 mem ≡ some (dictionary l m)
unfolding strcmp
strcmp-dictionary fuel s1 s2 mem l m h1 h2 lt =
    strcmp_loop_lem fuel 0 s1 s2 s1 s2 mem l m (omega arith) (omega arith) h1 h2 lt

strncmp_loop_lem :
    (n i s1 s2 k1 k2 : ℕ) (mem : ℕ → ℕ) (l m : List ℕ)
    → k1 ≡ s1 + i
    → k2 ≡ s2 + i
    → IsString mem k1 l
    → IsString mem k2 m
    → strncmp_loop n i s1 s2 mem ≡ dictionary (take n l) (take n m)
unfolding strncmp_loop dictionary
strncmp_loop_lem zero i s1 s2 k1 k2 mem l m e1 e2 h1 h2 = refl
strncmp_loop_lem (suc n) i s1 s2 k1 k2 mem [] [] e1 e2 h1 h2 = ground (arith, e1, e2, h1, h2)
strncmp_loop_lem (suc n) i s1 s2 k1 k2 mem [] (d ∷ m) e1 e2 h1 (h2, n2, r2) =
    ground (arith, e1, e2, h1, h2, n2)
strncmp_loop_lem (suc n) i s1 s2 k1 k2 mem (c ∷ l) [] e1 e2 (h1, n1, r1) h2 =
    ground (arith, e1, e2, h1, h2, n1)
strncmp_loop_lem (suc n) i s1 s2 k1 k2 mem (c ∷ l) (d ∷ m) e1 e2 (h1, n1, r1) (h2, n2, r2) =
    ground (
      arith,
      e1,
      e2,
      h1,
      h2,
      n1,
      strncmp_loop_lem n (i + 1) s1 s2 (k1 + 1) (k2 + 1) mem l m (omega (arith, e1))
          (omega (arith, e2)) r1 r2,
    )

-- `strncmp` compares the first `n` characters of the two strings in the order of the dictionary.
pub strncmp-dictionary :
    (n s1 s2 : ℕ) (mem : ℕ → ℕ) (l m : List ℕ)
    → IsString mem s1 l
    → IsString mem s2 m
    → strncmp s1 s2 n mem ≡ dictionary (take n l) (take n m)
unfolding strncmp
strncmp-dictionary n s1 s2 mem l m h1 h2 =
    strncmp_loop_lem n 0 s1 s2 s1 s2 mem l m (omega arith) (omega arith) h1 h2

-- The dictionary finds no difference exactly between equal lists.
pub dictionary-eq : (l m : List ℕ) → dictionary l m ≡ pos 0 → l ≡ m
unfolding dictionary
dictionary-eq [] [] h = refl
dictionary-eq [] (d ∷ m) h = ground (arith, h)
dictionary-eq (c ∷ l) [] h = ground (arith, h)
dictionary-eq (c ∷ l) (d ∷ m) h = ground (arith, h, dictionary-eq l m)

pub dictionary_self : (l : List ℕ) → dictionary l l ≡ pos 0
unfolding dictionary
dictionary_self [] = refl
dictionary_self (c ∷ l) = ground (arith, dictionary_self l)
