-- ===== src/Kernel/Buddy/Free.antt =====
-- `buddy_free`: the bytes of the block become free, and no others, whatever merges on the way.
use native.Mathlib.Nat.{pow-suc}
use native.Mathlib.Numerals.{add-one}
use orionis_os.Base.{
  ℕ, zero, suc, ◌+◌, ◌-◌, ◌*◌, ◌/◌, ◌%◌, ◌^◌, ◌≤◌, ◌<◌, ◌≡◌, ◌≢◌, ◌⊎◌, refl, ap, subst, ◌∙◌, false,
  some, List, [], ◌∷◌, ◌++◌, arith, ◌==◌, u64, All, length, length-append, Bool-cases, eqb→eq,
  eqb_self, inl, inr,
}
use orionis_os.Kernel.Pmm.{page_size}
use orionis_os.Kernel.Buddy.{
  Buddy, min_order, max_order, push, get_order, get_buddy, Slot, head, next_of, read_slot,
  write_slot, lower, merge_loop, buddy_free,
}
use orionis_os.Kernel.Buddy.Bits.{flip, get_buddy-block}
use orionis_os.Kernel.Buddy.Lists.{
  IsBlock, FreeLists, inside, cover, replace, Holds, Loose, push-Holds, cover-cons,
}
use orionis_os.Kernel.Buddy.Search.{
  missing, present, find_slot-Found, cover-unlinked, middle_blocks, unlinked-Holds,
}

-- The place of the pair of buddies that `q` belongs to, at one order.
abbrev PairPlace : ℕ → ℕ → Type 0
PairPlace k q =
    (2 ^ 16 ≤ q / 2 * 2 ^ (k + 1))
    × (2 ^ 16 ≤ flip q * 2 ^ k)
    × (lower (flip q * 2 ^ k) (q * 2 ^ k) ≡ q / 2 * 2 ^ (k + 1))

pair_12 : (q : ℕ) → 2 ^ 16 ≤ q * 2 ^ 12 → PairPlace 12 q
pair_12 q h = ground arith

pair_13 : (q : ℕ) → 2 ^ 16 ≤ q * 2 ^ 13 → PairPlace 13 q
pair_13 q h = ground arith

pair_14 : (q : ℕ) → 2 ^ 16 ≤ q * 2 ^ 14 → PairPlace 14 q
pair_14 q h = ground arith

pair_15 : (q : ℕ) → 2 ^ 16 ≤ q * 2 ^ 15 → PairPlace 15 q
pair_15 q h = ground arith

pair_place : (k q : ℕ) → 12 ≤ k → k < 16 → 2 ^ 16 ≤ q * 2 ^ k → PairPlace k q
pair_place k q p p' h = elim (Bool-cases (k == 12)) [
  | inl e ↦ at 12 (eqb→eq _ _ e) (pair_12 q)
  | inr n12 ↦ elim (Bool-cases (k == 13)) [
    | inl e ↦ at 13 (eqb→eq _ _ e) (pair_13 q)
    | inr n13 ↦ elim (Bool-cases (k == 14)) [
      | inl e ↦ at 14 (eqb→eq _ _ e) (pair_14 q)
      | inr n14 ↦ at 15 (ground arith) (pair_15 q)
    ]
  ]
]
  where
    at : (m : ℕ) → k ≡ m → (2 ^ 16 ≤ q * 2 ^ m → PairPlace m q) → PairPlace k q
    at m e f = rw e (f (rw e at h))

pow-add_one : (k : ℕ) → 2 ^ (k + 1) ≡ 2 ^ k * 2
pow-add_one k = rw add-one (pow-suc 2 k)

flip_neighbours :
    (k q : ℕ) → (flip q * 2 ^ k ≡ q * 2 ^ k + 2 ^ k) ⊎ (q * 2 ^ k ≡ flip q * 2 ^ k + 2 ^ k)
flip_neighbours k q = elim (Bool-cases (q % 2 == 0)) [
  | inl even ↦ rw even (inl (omega arith))
  | inr odd ↦
      let back : q ≡ q - 1 + 1 = ground arith in
      rw odd (inr (omega (arith, ap (λ (t : ℕ). t * 2 ^ k) back)))
]

-- A block below the largest order, away from the bottom of memory, and its buddy.
module _ (o x : ℕ) (b : IsBlock o x) (le : min_order ≤ o) (lt : o < max_order)
    (high : 2 ^ 16 ≤ x) where
  place : PairPlace o b.place
  place = pair_place o b.place le lt (rw b.aligned at high)

  buddy-eq : get_buddy x o ≡ flip b.place * 2 ^ o
  buddy-eq = rw b.aligned (get_buddy-block o b.place)

  buddy-high : 2 ^ 16 ≤ get_buddy x o
  buddy-high = rw buddy-eq place.1

  lower-eq : lower (get_buddy x o) x ≡ b.place / 2 * 2 ^ (o + 1)
  lower-eq = rw (buddy-eq) (rw b.aligned place.2)

  lower-high : 2 ^ 16 ≤ lower (get_buddy x o) x
  lower-high = rw lower-eq place.0

  -- One of the two starts where the other ends.
  neighbours : (get_buddy x o ≡ x + 2 ^ o) ⊎ (x ≡ get_buddy x o + 2 ^ o)
  neighbours = rw (buddy-eq, b.aligned) (flip_neighbours o b.place)

  inside_pair :
      (a : ℕ)
      → inside (o + 1) (lower (get_buddy x o) x) a ≡ inside o x a + inside o (get_buddy x o) a
  inside_pair a = ground (arith, neighbours, pow-add_one o)

  pair-IsBlock : IsBlock o (get_buddy x o) → IsBlock (o + 1) (lower (get_buddy x o) x)
  pair-IsBlock buddy = record {
    place = b.place / 2;
    aligned = lower-eq;
    ne_null = omega (arith, lower-high);
    ends = ground (arith, neighbours, pow-add_one o, b.ends, buddy.ends);
  }

-- What a release of a block of order `o` at `x` leaves behind: the bytes of the block are free
-- once more, and all others as before.
pub record Released (s : Buddy) (l : FreeLists) (o x : ℕ) (s' : Buddy) : Type 0 where
  pub lists : FreeLists
  pub holds : Holds s' lists
  pub bytes : (a : ℕ) → cover lists a ≡ cover l a + inside o x a
  pub used : s'.buddy_used_pages ≡ s.buddy_used_pages
  pub managed : s'.buddy_total_managed_pages ≡ s.buddy_total_managed_pages

push-Released :
    (o x : ℕ) {s : Buddy} {l : FreeLists}
    → Holds s l
    → Loose l o x
    → min_order ≤ o
    → o ≤ max_order
    → Released s l o x (push (o - min_order) x s)
push-Released o x {s} {l} h loose le ge = record {
  lists = replace o (x ∷ l o) l;
  holds = push-Holds loose h le ge;
  bytes = λ a. cover-cons o x a l le ge;
  used = unfold push in refl;
  managed = unfold push in refl;
}

-- Every free list is shorter than the fuel.
abbrev pub Enough : ℕ → FreeLists → Type 0
Enough fuel l = (o : ℕ) → min_order ≤ o → o ≤ max_order → length (l o) < fuel

nonzero : (o : ℕ) (xs : List ℕ) → All (IsBlock o) xs → All (λ x. x ≢ 0) xs
nonzero o [] h = tt
nonzero o (x ∷ xs) h = (h.0.ne_null, nonzero o xs h.1)

-- One merge: the buddy leaves its list, and the pair is a loose block of the next order.
module _ {s : Buddy} {l : FreeLists} (h : Holds s l) (o x : ℕ) (loose : Loose l o x)
    (le : min_order ≤ o) (lt : o < max_order) (high : 2 ^ 16 ≤ x) (pre ys : List ℕ)
    (e : l o ≡ pre ++ get_buddy x o ∷ ys) where
  abbrev without : FreeLists
  without = replace o (pre ++ ys) l

  abbrev pair : ℕ
  pair = lower (get_buddy x o) x

  in_range : o ≤ max_order
  in_range = omega arith

  pair-bytes : (a : ℕ) → cover without a + inside (o + 1) pair a ≡ cover l a + inside o x a
  pair-bytes a = omega (
    arith,
    cover-unlinked h o (get_buddy x o) le in_range pre ys e a,
    inside_pair o x loose.block le lt high a,
  )

  pair-Loose : Loose without (o + 1) pair
  pair-Loose = record {
    block =
        pair-IsBlock o x loose.block le lt high
          (middle_blocks h o (get_buddy x o) le in_range pre ys e).0;
    apart = λ a. omega (arith, pair-bytes a, loose.apart a);
  }

  without-Enough : (fuel : ℕ) → Enough fuel l → Enough fuel without
  without-Enough fuel en o' le' ge' = elim (Bool-cases (o' == o)) [
    | inl same ↦
        let e' : o' ≡ o = eqb→eq _ _ same in
        rw (e', eqb_self o)
          (omega (
            arith,
            en o le in_range,
            ap length e,
            length-append {0} pre ys,
            length-append {0} pre (get_buddy x o ∷ ys),
          ))
    | inr other ↦ rw other (en o' le' ge')
  ]

write_slot-used :
    (at : Slot) (v : ℕ) (s : Buddy) → (write_slot at v s).buddy_used_pages ≡ s.buddy_used_pages
unfolding write_slot
write_slot-used (head i) v s = refl
write_slot-used (next_of p) v s = refl

write_slot-managed :
    (at : Slot) (v : ℕ) (s : Buddy)
    → (write_slot at v s).buddy_total_managed_pages ≡ s.buddy_total_managed_pages
unfolding write_slot
write_slot-managed (head i) v s = refl
write_slot-managed (next_of p) v s = refl

merge_loop-Released :
    (fuel n o x : ℕ) {s : Buddy} {l : FreeLists}
    → Holds s l
    → Loose l o x
    → Enough fuel l
    → min_order ≤ o
    → n + o ≡ max_order
    → 2 ^ 16 ≤ x
    → (s' : Buddy) × (merge_loop fuel n o x s ≡ some s') × Released s l o x s'
unfolding merge_loop
merge_loop-Released fuel zero o x {s} {l} h loose en le e high =
    let top : o - min_order ≡ max_order - min_order = omega arith in
    (
      push (max_order - min_order) x s,
      refl,
      subst (λ i. Released s l o x (push i x s)) top (push-Released o x h loose le (omega arith)),
    )
merge_loop-Released fuel (suc n) o x {s} {l} h loose en le e high =
    let lt : o < max_order = omega arith in
    let far : 2 ^ 16 ≤ get_buddy x o = buddy-high o x loose.block le lt high in
    let ge : o ≤ max_order = omega arith in
    elim (find_slot-Found s (get_buddy x o) fuel (head (o - min_order)) (l o) (omega arith)
      (unfold read_slot in h.chains o le ge) (nonzero o (l o) (h.blocks o le ge)) (en o le ge)) [
        | missing at found z out ↦
            let stop : (0 == get_buddy x o) ≡ false = ground arith in
            rw (found, merge_loop, z, stop)
              (push (o - min_order) x s, refl, push-Released o x h loose le ge)
        | present pre ys found r split ↦
            let rest =
              merge_loop-Released fuel n (o + 1) (lower (get_buddy x o) x)
                (unlinked-Holds h o (get_buddy x o) le ge pre ys split)
                (pair-Loose h o x loose le lt high pre ys split)
                (without-Enough h o x loose le lt high pre ys split fuel en) (omega arith)
                (omega arith) (lower-high o x loose.block le lt high) in
            rw (found, merge_loop, r, eqb_self (get_buddy x o))
              (
                rest.0,
                rest.1,
                record {
                  lists = rest.2.lists;
                  holds = rest.2.holds;
                  bytes = λ a. rest.2.bytes a ∙ pair-bytes h o x loose le lt high pre ys split a;
                  used = rest.2.used ∙ write_slot-used _ _ s;
                  managed = rest.2.managed ∙ write_slot-managed _ _ s;
                },
              )
      ]

Holds-used :
    {s : Buddy} {l : FreeLists} (u : ℕ) → Holds s l → Holds (record s { buddy_used_pages = u }) l
Holds-used u h = record { chains = h.chains; blocks = h.blocks; apart = h.apart }

-- `buddy_free` of a block that `buddy_alloc` may have handed out for the same size: one of the
-- smallest order with room for the size, of which no byte is free, at 2 ^ 16 or above, and with
-- enough fuel for every list. It ends; the bytes of the block are free then and all other bytes as
-- before, in lists of aligned blocks that overlap nowhere; and the block's pages are taken off
-- `buddy_used_pages`.
pub buddy_free-Released :
    (fuel addr size o : ℕ) (s : Buddy) (l : FreeLists)
    → Holds s l
    → get_order size ≡ some o
    → min_order ≤ o
    → o ≤ max_order
    → Loose l o addr
    → Enough fuel l
    → 2 ^ 16 ≤ addr
    → (s' : Buddy) × (buddy_free fuel addr size s ≡ some s')
      × (l' : FreeLists) × Holds s' l'
      × ((a : ℕ) → cover l' a ≡ cover l a + inside o addr a)
      × (s'.buddy_used_pages ≡ u64 (s.buddy_used_pages + 2 ^ 64 - 2 ^ o / page_size))
      × (s'.buddy_total_managed_pages ≡ s.buddy_total_managed_pages)
unfolding buddy_free
buddy_free-Released fuel addr size o s l h found le ge loose en high =
    let (s', e, r) =
      merge_loop-Released fuel (max_order - o) o addr (Holds-used _ h) loose en le (omega arith)
        high in
    (s', rw (found, buddy_free) e, r.lists, r.holds, r.bytes, r.used, r.managed)
