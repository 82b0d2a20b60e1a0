-- ===== src/Kernel/Buddy/Alloc.antt =====
-- `buddy_alloc`: the block that it returns, and what the free lists hold afterwards.
use native.Mathlib.Nat.{pow-suc, one-le-pow}
use orionis_os.Base.{
  ℕ, zero, suc, ◌+◌, ◌-◌, ◌*◌, ◌/◌, ◌^◌, ◌≤◌, ◌<◌, ◌≡◌, ◌≢◌, ◌⊎◌, refl, ap, ◌∙◌, true, false, List,
  [], ◌∷◌, arith, leb, ◌==◌, All, Bool-cases, eqb→eq, inl, inr, u64, some,
}
use orionis_os.Kernel.Pmm.{page_size}
use orionis_os.Kernel.Buddy.{
  get_order, Buddy, min_order, max_order, push, split, take_block, alloc_loop, buddy_alloc,
}
use orionis_os.Kernel.Buddy.Order.{IsOrderOf, get_order-IsOrderOf}
use orionis_os.Kernel.Buddy.Lists.{
  IsBlock, FreeLists, Chain, inside, cover, replace, Holds, Loose, push-Holds, cover-cons,
  cover-tail, first-eq, pop-Loose, pop-Holds,
}

-- The two halves of a block.
module _ (o x : ℕ) (b : IsBlock (suc o) x) where
  half-pow : 2 ^ suc o ≡ 2 ^ o * 2
  half-pow = pow-suc 2 o

  low_half : IsBlock o x
  low_half = record {
    place = b.place * 2;
    aligned = omega (arith, b.aligned, ap (λ (t : ℕ). b.place * t) half-pow);
    ne_null = b.ne_null;
    ends = omega (arith, b.ends, half-pow);
  }

  high_half : IsBlock o (x + 2 ^ o)
  high_half = record {
    place = b.place * 2 + 1;
    aligned = omega (arith, b.aligned, ap (λ (t : ℕ). b.place * t) half-pow);
    ne_null = omega (arith, b.ne_null);
    ends = omega (arith, b.ends, half-pow);
  }

  inside_halves : (a : ℕ) → inside (suc o) x a ≡ inside o x a + inside o (x + 2 ^ o) a
  inside_halves a = ground (arith, half-pow)

-- One round of the splitting loop: the upper half goes into its list.
module _ (o x : ℕ) {l : FreeLists} (loose : Loose l (suc o) x) (le : min_order ≤ o)
    (ge : o < max_order) where
  abbrev with_high : FreeLists
  with_high = replace o ((x + 2 ^ o) ∷ l o) l

  high_Loose : Loose l o (x + 2 ^ o)
  high_Loose = record {
    block = high_half o x loose.block;
    apart = λ a. omega (arith, loose.apart a, inside_halves o x loose.block a);
  }

  round_bytes : (a : ℕ) → cover l a + inside (suc o) x a ≡ cover with_high a + inside o x a
  round_bytes a =
      omega (arith, cover-cons o (x + 2 ^ o) a l le (omega arith), inside_halves o x loose.block a)

  low_Loose : Loose with_high o x
  low_Loose = record {
    block = low_half o x loose.block;
    apart = λ a. omega (arith, round_bytes a, loose.apart a);
  }

  high_address : u64 (x + 2 ^ o) ≡ x + 2 ^ o
  high_address = omega (arith, (high_half o x loose.block).ends, one-le-pow o 2)

  round-Holds : {s : Buddy} → Holds s l → Holds (push (o - min_order) (x + 2 ^ o) s) with_high
  round-Holds h = push-Holds high_Loose h le (omega arith)

-- What splitting a block of order `i` at `x` down to order `o` leaves behind.
record IsSplit (s : Buddy) (l : FreeLists) (i o x : ℕ) (s' : Buddy) : Type 0 where
  lists : FreeLists
  holds : Holds s' lists
  loose : Loose lists o x
  bytes : (a : ℕ) → cover l a + inside i x a ≡ cover lists a + inside o x a
  used : s'.buddy_used_pages ≡ s.buddy_used_pages
  managed : s'.buddy_total_managed_pages ≡ s.buddy_total_managed_pages

push-used : (i x : ℕ) (s : Buddy) → (push i x s).buddy_used_pages ≡ s.buddy_used_pages
unfolding push
push-used i x s = refl

push-managed :
    (i x : ℕ) (s : Buddy) → (push i x s).buddy_total_managed_pages ≡ s.buddy_total_managed_pages
unfolding push
push-managed i x s = refl

split-suc :
    (n o x : ℕ) (s : Buddy)
    → split (suc n) (suc n + o) x s
      ≡ split n (n + o) x (push (n + o - min_order) (u64 (x + 2 ^ (n + o))) s)
unfolding split
split-suc n o x s = let e : suc n + o - 1 ≡ n + o = omega arith in rw e

split-IsSplit :
    (n o x : ℕ) {s : Buddy} {l : FreeLists}
    → Holds s l
    → Loose l (n + o) x
    → min_order ≤ o
    → n + o ≤ max_order
    → IsSplit s l (n + o) o x (split n (n + o) x s)
split-IsSplit zero o x {s} {l} h loose le ge =
    let e : 0 + o ≡ o = omega arith in
    rw e (
      unfold split in
      record {
        lists = l;
        holds = h;
        loose = rw e at loose;
        bytes = λ a. refl;
        used = refl;
        managed = refl;
      })
split-IsSplit (suc n) o x {s} {l} h loose le ge =
    let e : suc n + o ≡ suc (n + o) = omega arith in
    let loose' : Loose l (suc (n + o)) x = rw e at loose in
    let low : min_order ≤ n + o = omega arith in
    let high : n + o < max_order = omega arith in
    let rest =
      split-IsSplit n o x (round-Holds (n + o) x loose' low high h)
        (low_Loose (n + o) x loose' low high) le (omega arith) in
    rw (split-suc, high_address (n + o) x loose' low high, e)
      (record {
        lists = rest.lists;
        holds = rest.holds;
        loose = rest.loose;
        bytes = λ a. round_bytes (n + o) x loose' low high a ∙ rest.bytes a;
        used = rest.used ∙ push-used _ _ s;
        managed = rest.managed ∙ push-managed _ _ s;
      })

-- What `buddy_alloc` may return for a request of order `o`.
pub data Allocated (s : Buddy) (l : FreeLists) (o : ℕ) (r : Buddy × ℕ) : Type 0 where
  block :
      (l' : FreeLists)
      → o ≤ max_order
      → Holds r.0 l'
      → Loose l' o r.1
      → ((a : ℕ) → cover l a ≡ cover l' a + inside o r.1 a)
      → r.0.buddy_used_pages ≡ u64 (s.buddy_used_pages + 2 ^ o / page_size)
      → r.0.buddy_total_managed_pages ≡ s.buddy_total_managed_pages
      → Allocated s l o r
  exhausted : ((i : ℕ) → o ≤ i → i ≤ max_order → l i ≡ []) → r ≡ (s, 0) → Allocated s l o r

Holds-used :
    {s : Buddy} {l : FreeLists} (u : ℕ) → Holds s l → Holds (record s { buddy_used_pages = u }) l
Holds-used u h = record { chains = h.chains; blocks = h.blocks; apart = h.apart }

module _ (o i : ℕ) {s : Buddy} {l : FreeLists} (h : Holds s l) (le : min_order ≤ o) (mid : o ≤ i)
    (ge : i ≤ max_order) where
  take_block-Allocated : (x : ℕ) (xs : List ℕ) → l i ≡ x ∷ xs → Allocated s l o (take_block i o s)
  unfolding take_block
  take_block-Allocated x xs e =
      let low : min_order ≤ i = omega arith in
      let back : i - o + o ≡ i = omega arith in
      let split_up = rw back at (
        split-IsSplit (i - o) o x (pop-Holds h low ge e) (rw back (pop-Loose h low ge e)) le
          (rw back ge)) in
      rw (first-eq h low ge e) (
        block split_up.lists (omega arith) (Holds-used _ split_up.holds) split_up.loose
          (λ a. omega (arith, cover-tail i x a xs l low ge e, split_up.bytes a))
          (rw (split_up.used) refl) split_up.managed)

-- A list is empty exactly if its head is a null pointer.
head-null :
    {s : Buddy} {l : FreeLists} (i : ℕ)
    → Holds s l
    → min_order ≤ i
    → i ≤ max_order
    → ((s.free_list (i - min_order) ≡ 0) × (l i ≡ []))
      ⊎ ((s.free_list (i - min_order) ≢ 0) × (x : ℕ) × (xs : List ℕ) × (l i ≡ x ∷ xs))
head-null {s} {l} i h le ge = go (l i) (h.chains i le ge) (h.blocks i le ge) refl
  where
    go :
        (ys : List ℕ)
        → Chain s.next (s.free_list (i - min_order)) ys
        → All (IsBlock i) ys
        → l i ≡ ys
        → ((s.free_list (i - min_order) ≡ 0) × (l i ≡ []))
          ⊎ ((s.free_list (i - min_order) ≢ 0) × (x : ℕ) × (xs : List ℕ) × (l i ≡ x ∷ xs))
    go [] c b e = inl (c, e)
    go (y ∷ ys) c b e = inr (λ z. b.0.ne_null (omega (arith, c.0)), y, ys, e)

alloc_loop-Allocated :
    (n i o : ℕ) {s : Buddy} {l : FreeLists}
    → Holds s l
    → min_order ≤ o
    → o ≤ i
    → n + i ≡ max_order + 1
    → ((j : ℕ) → o ≤ j → j < i → l j ≡ [])
    → Allocated s l o (alloc_loop n i o s)
unfolding alloc_loop
alloc_loop-Allocated zero i o h le mid e empty = exhausted (λ j p q. empty j p (omega arith)) refl
alloc_loop-Allocated (suc n) i o {s} {l} h le mid e empty =
    elim (head-null i h (omega arith) (omega arith)) [
      | inl (null, nil) ↦
          let stop : (s.free_list (i - min_order) == 0) ≡ true = ground arith in
          rw stop (
            alloc_loop-Allocated n (i + 1) o h le (omega arith) (omega arith) (λ j p q.
              elim (Bool-cases (j == i)) [
                | inl same ↦ let e' : j ≡ i = eqb→eq _ _ same in rw e' nil
                | inr other ↦ empty j p (ground arith)
              ]))
      | inr (some_block, x, xs, first) ↦
          let go : (s.free_list (i - min_order) == 0) ≡ false = ground arith in
          rw go (take_block-Allocated o i h le mid (omega arith) x xs first)
    ]

from_order :
    (o : ℕ) {s : Buddy} {l : FreeLists}
    → Holds s l
    → min_order ≤ o
    → Allocated s l o (alloc_loop (max_order + 1 - o) o o s)
from_order o h le = elim (Bool-cases (leb o max_order)) [
  | inl in_range ↦
      alloc_loop-Allocated (max_order + 1 - o) o o h le (omega arith) (ground arith)
        (λ j p q. absurd (omega arith))
  | inr above ↦
      let none_left : max_order + 1 - o ≡ 0 = ground arith in
      rw none_left (unfold alloc_loop in exhausted (λ j p q. absurd (ground arith)) refl)
]

-- On a state that holds the free lists `l`, `buddy_alloc` of a size up to 2 ^ 63 returns, for the
-- smallest order with room for the size: either a block of that order, aligned and not at 0, of which
-- no byte is free any more, while every other byte stays as free as it was and the pages of the block
-- are added to `buddy_used_pages`; or a null pointer, with no change, where every list from that order
-- on is empty.
pub buddy_alloc-Allocated :
    (size : ℕ) (s : Buddy) (l : FreeLists)
    → Holds s l
    → size ≤ 2 ^ 63
    → (o : ℕ) × (r : Buddy × ℕ) × (get_order size ≡ some o)
      × IsOrderOf size o
      × (buddy_alloc size s ≡ some r)
      × Allocated s l o r
unfolding buddy_alloc
buddy_alloc-Allocated size s l h small =
    let (o, found, is_order) = get_order-IsOrderOf size small in
    (
      o,
      alloc_loop (max_order + 1 - o) o o s,
      found,
      is_order,
      rw (found, buddy_alloc) refl,
      from_order o h is_order.at_least,
    )
