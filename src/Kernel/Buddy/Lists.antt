-- ===== src/Kernel/Buddy/Lists.antt =====
-- The free lists as lists of addresses, one for each order, and the bytes that they cover.
use native.Mathlib.Nat.{one-le-pow}
use orionis_os.Base.{
  ℕ, zero, suc, ◌+◌, ◌-◌, ◌*◌, ◌^◌, ◌≤◌, ◌<◌, ◌≡◌, ◌≢◌, refl, ap, Bool, true, false, List, [], ◌∷◌,
  arith, ltb, leb, ◌==◌, ◌&&◌, ◌||◌, if◌then◌else◌, store, All, Bool-cases, eqb→eq, eqb_self, inl,
  inr,
}
use orionis_os.Kernel.Buddy.{Buddy, min_order, max_order, push}

-- A block of an order: aligned to its size, not at 0, and inside the address space.
pub record IsBlock (order x : ℕ) : Type 0 where
  pub place : ℕ
  pub aligned : x ≡ place * 2 ^ order
  pub ne_null : x ≢ 0
  pub ends : x + 2 ^ order ≤ 2 ^ 64

abbrev pub FreeLists : Type 0
FreeLists = ℕ → List ℕ

-- From `p` the `next` pointers lead through the blocks of the list to a null pointer.
abbrev pub Chain : (ℕ → ℕ) → ℕ → List ℕ → Type 0
Chain nx p [] = p ≡ 0
Chain nx p (x ∷ xs) = (p ≡ x) × Chain nx (nx x) xs

abbrev pub has : ℕ → List ℕ → Bool
has b [] = false
has b (x ∷ xs) = (x == b) || has b xs

-- 1 if byte `a` lies in the block of that order at `x`, else 0.
abbrev pub inside : ℕ → ℕ → ℕ → ℕ
inside order x a = if leb x a && ltb a (x + 2 ^ order) then 1 else 0

-- How many blocks of a list hold byte `a`.
unfoldable pub hits : ℕ → ℕ → List ℕ → ℕ
hits order a [] = 0
hits order a (x ∷ xs) = inside order x a + hits order a xs

-- How many free blocks of the `n` lowest orders hold byte `a`.
unfoldable pub cover_below : ℕ → FreeLists → ℕ → ℕ
unfolding hits
cover_below zero l a = 0
cover_below (suc n) l a = hits (n + min_order) a (l (n + min_order)) + cover_below n l a

-- How many free blocks hold byte `a`.
abbrev pub cover : FreeLists → ℕ → ℕ
cover l a = cover_below 5 l a

abbrev pub replace : ℕ → List ℕ → FreeLists → FreeLists
replace order xs l j = if j == order then xs else l j

-- The state holds these free lists, and no byte lies in two free blocks.
pub record Holds (s : Buddy) (l : FreeLists) : Type 0 where
  pub chains :
      (o : ℕ) → min_order ≤ o → o ≤ max_order → Chain s.next (s.free_list (o - min_order)) (l o)
  pub blocks : (o : ℕ) → min_order ≤ o → o ≤ max_order → All (IsBlock o) (l o)
  pub apart : (a : ℕ) → cover l a ≤ 1

-- A block in nobody's list, of which no byte is free.
pub record Loose (l : FreeLists) (order x : ℕ) : Type 0 where
  pub block : IsBlock order x
  pub apart : (a : ℕ) → cover l a + inside order x a ≤ 1

pub inside_start : (order x : ℕ) → inside order x x ≡ 1
inside_start order x = ground (arith, one-le-pow order 2)

module _ (order : ℕ) (xs : List ℕ) (l : FreeLists) (a : ℕ) where
  pub cover_below-replace :
      (n : ℕ)
      → min_order ≤ order
      → cover_below n (replace order xs l) a
          + (if ltb order (n + min_order) then hits order a (l order) else 0)
        ≡ cover_below n l a + (if ltb order (n + min_order) then hits order a xs else 0)
  unfolding cover_below
  cover_below-replace zero le = ground arith
  cover_below-replace (suc n) le = elim (Bool-cases (n + min_order == order)) [
    | inl here ↦
        let e : n + min_order ≡ order = eqb→eq _ _ here in
        rw e (ground (arith, cover_below-replace n le))
    | inr there ↦ ground (arith, cover_below-replace n le)
  ]

pub hits-le-cover_below :
    (n o a : ℕ) (l : FreeLists)
    → min_order ≤ o
    → o < n + min_order
    → hits o a (l o) ≤ cover_below n l a
unfolding cover_below
hits-le-cover_below zero o a l le lt = absurd (omega arith)
hits-le-cover_below (suc n) o a l le lt = elim (Bool-cases (n + min_order == o)) [
  | inl here ↦ let e : n + min_order ≡ o = eqb→eq _ _ here in rw e (omega arith)
  | inr there ↦ ground (arith, hits-le-cover_below n o a l le)
]

pub hits_of_has : (o b : ℕ) (xs : List ℕ) → has b xs ≡ true → 1 ≤ hits o b xs
unfolding hits
hits_of_has o b [] h = cc
hits_of_has o b (x ∷ xs) h = ground (arith, inside_start o b, hits_of_has o b xs)

pub Chain-store :
    (nx : ℕ → ℕ) (b v p : ℕ) (xs : List ℕ)
    → has b xs ≡ false
    → Chain nx p xs
    → Chain (store nx b v) p xs
Chain-store nx b v p [] out c = c
Chain-store nx b v p (x ∷ xs) out c = (
  c.0,
  let other : (b == x) ≡ false = ground arith in
      rw other (Chain-store nx b v (nx x) xs (ground arith) c.1),
)

-- What a list gains by one block, the cover does too.
pub cover-cons :
    (o x a : ℕ) (l : FreeLists)
    → min_order ≤ o
    → o ≤ max_order
    → cover (replace o (x ∷ l o) l) a ≡ cover l a + inside o x a
unfolding hits
cover-cons o x a l le ge = ground (arith, cover_below-replace o (x ∷ l o) l a 5 le)

-- What a list loses by its first block, the cover does too.
pub cover-tail :
    (o x a : ℕ) (xs : List ℕ) (l : FreeLists)
    → min_order ≤ o
    → o ≤ max_order
    → l o ≡ x ∷ xs
    → cover l a ≡ cover (replace o xs l) a + inside o x a
unfolding hits
cover-tail o x a xs l le ge e = ground (arith, cover_below-replace o xs l a 5 le, ap (hits o a) e)

module _ {l : FreeLists} {o x : ℕ} (loose : Loose l o x) where
  pub Loose-not_has : (o' : ℕ) → min_order ≤ o' → o' ≤ max_order → has x (l o') ≡ false
  Loose-not_has o' le ge = ground (
    arith,
    loose.apart x,
    inside_start o x,
    hits-le-cover_below 5 o' x l le,
    hits_of_has o' x (l o'),
  )

  module _ {s : Buddy} (h : Holds s l) (le : min_order ≤ o) (ge : o ≤ max_order) where
    push-chains :
        (o' : ℕ)
        → min_order ≤ o'
        → o' ≤ max_order
        → Chain
            (push (o - min_order) x s).next
            ((push (o - min_order) x s).free_list (o' - min_order))
            (replace o (x ∷ l o) l o')
    unfolding push
    push-chains o' le' ge' = elim (Bool-cases (o' == o)) [
      | inl same ↦
          let e : o' ≡ o = eqb→eq _ _ same in
          rw (e, eqb_self o, eqb_self (o - min_order))
            (
              refl,
              rw (eqb_self x)
                  (Chain-store s.next x _ _ (l o) (Loose-not_has o le ge) (h.chains o le ge)),
            )
      | inr other ↦
          let apart : (o - min_order == o' - min_order) ≡ false = ground arith in
          rw (other, apart)
            (Chain-store s.next x _ _ (l o') (Loose-not_has o' le' ge') (h.chains o' le' ge'))
    ]

    push-blocks :
        (o' : ℕ) → min_order ≤ o' → o' ≤ max_order → All (IsBlock o') (replace o (x ∷ l o) l o')
    push-blocks o' le' ge' = elim (Bool-cases (o' == o)) [
      | inl same ↦
          let e : o' ≡ o = eqb→eq _ _ same in rw (e, eqb_self o) (loose.block, h.blocks o le ge)
      | inr other ↦ rw other (h.blocks o' le' ge')
    ]

    pub push-Holds : Holds (push (o - min_order) x s) (replace o (x ∷ l o) l)
    push-Holds = record {
      chains = push-chains;
      blocks = push-blocks;
      apart = λ a. rw (cover-cons o x a l le ge) (loose.apart a);
    }

-- The first block of a list, taken off it.
module _ {l : FreeLists} {o x : ℕ} {xs : List ℕ} {s : Buddy} (h : Holds s l) (le : min_order ≤ o)
    (ge : o ≤ max_order) (e : l o ≡ x ∷ xs) where
  abbrev popped : Buddy
  popped = record s { free_list = store s.free_list (o - min_order) (s.next x) }

  first-Chain : Chain s.next (s.free_list (o - min_order)) (x ∷ xs)
  first-Chain = rw e at (h.chains o le ge)

  first-IsBlock : All (IsBlock o) (x ∷ xs)
  first-IsBlock = rw e at (h.blocks o le ge)

  pub first-eq : s.free_list (o - min_order) ≡ x
  first-eq = first-Chain.0

  pub pop-Loose : Loose (replace o xs l) o x
  pop-Loose = record {
    block = first-IsBlock.0;
    apart = λ a. omega (arith, cover-tail o x a xs l le ge e, h.apart a);
  }

  pub pop-Holds : Holds popped (replace o xs l)
  pop-Holds = record {
    chains = λ o' le' ge'. elim (Bool-cases (o' == o)) [
      | inl same ↦
          let e' : o' ≡ o = eqb→eq _ _ same in
          rw (e', eqb_self o, eqb_self (o - min_order)) first-Chain.1
      | inr other ↦
          let apart : (o - min_order == o' - min_order) ≡ false = ground arith in
          rw (other, apart) (h.chains o' le' ge')
    ];
    blocks = λ o' le' ge'. elim (Bool-cases (o' == o)) [
      | inl same ↦ let e' : o' ≡ o = eqb→eq _ _ same in rw (e', eqb_self o) first-IsBlock.1
      | inr other ↦ rw other (h.blocks o' le' ge')
    ];
    apart = λ a. omega (arith, cover-tail o x a xs l le ge e, h.apart a);
  }
