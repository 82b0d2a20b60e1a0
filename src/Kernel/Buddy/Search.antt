-- ===== src/Kernel/Buddy/Search.antt =====
-- The search of `buddy_free` through one free list, and the unlinking of what it finds.
use orionis_os.Base.{
  ℕ, zero, suc, ◌+◌, ◌-◌, ◌≤◌, ◌<◌, ◌≡◌, ◌≢◌, refl, ap, sym, true, false, Option, some, List, [],
  ◌∷◌, ◌++◌, arith, ◌==◌, ◌||◌, store, All, length, Bool-cases, eqb→eq, eqb_self, inl, inr,
}
use orionis_os.Kernel.Buddy.{
  Buddy, min_order, max_order, Slot, head, next_of, read_slot, write_slot, find_slot,
}
use orionis_os.Kernel.Buddy.Lists.{
  FreeLists, IsBlock, Chain, has, inside, inside_start, hits, cover, cover_below,
  cover_below-replace, replace, Holds, hits_of_has, hits-le-cover_below, Chain-store, pop-Holds,
}

-- The place behind the blocks `pre` of a list that starts at `cur`.
pub slot_after : Slot → List ℕ → Slot
slot_after cur [] = cur
slot_after cur (y ∷ pre) = slot_after (next_of y) pre

-- What the search for `b` from `cur` finds, if the list there is `xs`.
pub data Found (s : Buddy) (b : ℕ) (cur : Slot) (xs : List ℕ) (o : Option Slot) : Type 0 where
  missing : (at : Slot) → o ≡ some at → read_slot at s ≡ 0 → has b xs ≡ false → Found s b cur xs o
  present :
      (pre ys : List ℕ)
      → o ≡ some (slot_after cur pre)
      → read_slot (slot_after cur pre) s ≡ b
      → xs ≡ pre ++ b ∷ ys
      → Found s b cur xs o

module _ (s : Buddy) (b : ℕ) where
  Found-cons :
      {cur : Slot} {x : ℕ} {xs : List ℕ} {o : Option Slot}
      → (x == b) ≡ false
      → Found s b (next_of x) xs o
      → Found s b cur (x ∷ xs) o
  Found-cons other (missing at e z out) = missing at e z (rw (other, out) refl)
  Found-cons {x} other (present pre ys e r split) =
      present (x ∷ pre) ys (unfold slot_after in e) (unfold slot_after in r) (ap (◌∷◌ x) split)

  pub find_slot-Found :
      (fuel : ℕ) (cur : Slot) (xs : List ℕ)
      → b ≢ 0
      → Chain s.next (read_slot cur s) xs
      → All (λ x. x ≢ 0) xs
      → length xs < fuel
      → Found s b cur xs (find_slot fuel cur b s)
  unfolding find_slot read_slot slot_after
  find_slot-Found zero cur xs ne c nz lt = absurd (omega arith)
  find_slot-Found (suc fuel) cur [] ne c nz lt = missing cur (ground arith) c refl
  find_slot-Found (suc fuel) cur (x ∷ xs) ne c nz lt = elim (Bool-cases (x == b)) [
    | inl here ↦ present [] xs (ground arith) (ground arith) (ap (λ y. y ∷ xs) (eqb→eq _ _ here))
    | inr on ↦
        let full : (x == 0) ≡ false = ground (arith, nz.0) in
        rw (c.0, full, on)
          (Found-cons on (find_slot-Found fuel (next_of x) xs ne c.1 nz.1 (omega arith)))
  ]

-- No address stands twice in the list.
abbrev Distinct : List ℕ → Type 0
Distinct [] = Unit
Distinct (x ∷ xs) = (has x xs ≡ false) × Distinct xs

Distinct-of_hits : (o : ℕ) (xs : List ℕ) → ((a : ℕ) → hits o a xs ≤ 1) → Distinct xs
unfolding hits
Distinct-of_hits o [] h = tt
Distinct-of_hits o (x ∷ xs) h = (
  ground (arith, h x, inside_start o x, hits_of_has o x xs),
  Distinct-of_hits o xs (λ a. omega (arith, h a)),
)

has-append : (a : ℕ) (xs ys : List ℕ) → has a (xs ++ ys) ≡ (has a xs || has a ys)
has-append a [] ys = refl
has-append a (x ∷ xs) ys = ground (arith, has-append a xs ys)

last_of : ℕ → List ℕ → ℕ
last_of y [] = y
last_of y (z ∷ pre) = last_of z pre

slot_after-cons :
    (cur : Slot) (y : ℕ) (pre : List ℕ) → slot_after cur (y ∷ pre) ≡ next_of (last_of y pre)
unfolding slot_after last_of
slot_after-cons cur y [] = refl
slot_after-cons cur y (z ∷ pre) = slot_after-cons (next_of y) z pre

has-last_of : (y : ℕ) (pre ys : List ℕ) → has (last_of y pre) (y ∷ pre ++ ys) ≡ true
unfolding last_of
has-last_of y [] ys = ground arith
has-last_of y (z ∷ pre) ys = ground (arith, has-last_of z pre ys)

-- Unlinking the block behind `y ∷ pre` by a write to the last of these.
unlink-Chain :
    (nx : ℕ → ℕ) (b p y : ℕ) (pre ys : List ℕ)
    → Distinct (y ∷ pre ++ b ∷ ys)
    → Chain nx p (y ∷ pre ++ b ∷ ys)
    → Chain (store nx (last_of y pre) (nx b)) p (y ∷ pre ++ ys)
unfolding last_of
unlink-Chain nx b p y [] ys d c =
    (c.0, rw (eqb_self y) (Chain-store nx y (nx b) (nx b) ys (ground arith) c.1.1))
unlink-Chain nx b p y (z ∷ pre) ys d c = (
  c.0,
  let other : (last_of z pre == y) ≡ false = ground (arith, has-last_of z pre (b ∷ ys), d.0) in
      rw other (unlink-Chain nx b (nx y) z pre ys d.1 c.1),
)

hits-middle :
    (o a b : ℕ) (pre ys : List ℕ) → hits o a (pre ++ b ∷ ys) ≡ hits o a (pre ++ ys) + inside o b a
unfolding hits
hits-middle o a b [] ys = omega arith
hits-middle o a b (x ∷ pre) ys = omega (arith, hits-middle o a b pre ys)

All-middle :
    (P : ℕ → Type 0) (b : ℕ) (pre ys : List ℕ) → All P (pre ++ b ∷ ys) → P b × All P (pre ++ ys)
All-middle P b [] ys h = h
All-middle P b (x ∷ pre) ys h = let rest = All-middle P b pre ys h.1 in (rest.0, (h.0, rest.1))

-- Two lists of different orders have no byte in common.
hits-two :
    (n o o' a : ℕ) (l : FreeLists)
    → min_order ≤ o
    → o < n + min_order
    → min_order ≤ o'
    → o' < n + min_order
    → o ≢ o'
    → hits o a (l o) + hits o' a (l o') ≤ cover_below n l a
unfolding cover_below
hits-two zero o o' a l p q p' q' ne = absurd (omega arith)
hits-two (suc n) o o' a l p q p' q' ne = elim (Bool-cases (n + min_order == o)) [
  | inl here ↦
      let e : n + min_order ≡ o = eqb→eq _ _ here in
      rw e (ground (arith, hits-le-cover_below n o' a l))
  | inr there ↦ elim (Bool-cases (n + min_order == o')) [
    | inl here' ↦
        let e : n + min_order ≡ o' = eqb→eq _ _ here' in
        rw e (ground (arith, hits-le-cover_below n o a l))
    | inr there' ↦ ground (arith, hits-two n o o' a l)
  ]
]

-- The block `b` of the list of order `o`, behind `pre`.
module _ {s : Buddy} {l : FreeLists} (h : Holds s l) (o b : ℕ) (le : min_order ≤ o)
    (ge : o ≤ max_order) where
  pub cover-unlinked :
      (pre ys : List ℕ)
      → l o ≡ pre ++ b ∷ ys
      → (a : ℕ) → cover l a ≡ cover (replace o (pre ++ ys) l) a + inside o b a
  cover-unlinked pre ys e a =
      ground (
        arith,
        cover_below-replace o (pre ++ ys) l a 5 le,
        ap (hits o a) e,
        hits-middle o a b pre ys,
      )

  pub middle_blocks :
      (pre ys : List ℕ) → l o ≡ pre ++ b ∷ ys → IsBlock o b × All (IsBlock o) (pre ++ ys)
  middle_blocks pre ys e = All-middle (IsBlock o) b pre ys (rw e at (h.blocks o le ge))

  -- The write goes to a block of this list, so the other lists stay as they are.
  other_list :
      (y : ℕ) (pre ys : List ℕ) (o' : ℕ)
      → l o ≡ y ∷ pre ++ b ∷ ys
      → min_order ≤ o'
      → o' ≤ max_order
      → o' ≢ o
      → has (last_of y pre) (l o') ≡ false
  other_list y pre ys o' e le' ge' ne =
      let at : ℕ = last_of y pre in
      ground (
        arith,
        hits-two 5 o o' at l le (omega arith) le' (omega arith) (λ e'. ne (sym e')),
        h.apart at,
        hits_of_has o at (l o) (rw e (has-last_of y pre (b ∷ ys))),
        hits_of_has o' at (l o'),
      )

  unlinked-chains :
      (y : ℕ) (pre ys : List ℕ) (o' : ℕ)
      → l o ≡ y ∷ pre ++ b ∷ ys
      → min_order ≤ o'
      → o' ≤ max_order
      → Chain
          (store s.next (last_of y pre) (s.next b))
          (s.free_list (o' - min_order))
          (replace o (y ∷ pre ++ ys) l o')
  unlinked-chains y pre ys o' e le' ge' = elim (Bool-cases (o' == o)) [
    | inl same ↦
        let e' : o' ≡ o = eqb→eq _ _ same in
        rw (e', eqb_self o)
          (unlink-Chain s.next b (s.free_list (o - min_order)) y pre ys
            (rw e at (
              Distinct-of_hits o (l o)
                (λ a. omega (arith, h.apart a, hits-le-cover_below 5 o a l le (omega arith)))))
            (rw e at (h.chains o le ge)))
    | inr other ↦ rw other (
        Chain-store s.next (last_of y pre) _ _ (l o')
          (other_list y pre ys o' e le' ge' (ground arith)) (h.chains o' le' ge'))
  ]

  pub unlinked-Holds :
      (pre ys : List ℕ)
      → l o ≡ pre ++ b ∷ ys
      → Holds
          (write_slot (slot_after (head (o - min_order)) pre) (s.next b) s)
          (replace o (pre ++ ys) l)
  unfolding slot_after write_slot
  unlinked-Holds [] ys e = pop-Holds h le ge e
  unlinked-Holds (y ∷ pre) ys e = rw (slot_after-cons (head (o - min_order)) y pre) (record {
    chains = λ o'. unlinked-chains y pre ys o' e;
    blocks = λ o' le' ge'. elim (Bool-cases (o' == o)) [
      | inl same ↦
          let e' : o' ≡ o = eqb→eq _ _ same in rw (e', eqb_self o) (middle_blocks (y ∷ pre) ys e).1
      | inr other ↦ rw other (h.blocks o' le' ge')
    ];
    apart = λ a. omega (arith, cover-unlinked (y ∷ pre) ys e a, h.apart a);
  })
