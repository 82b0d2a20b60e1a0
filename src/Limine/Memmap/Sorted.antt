-- ===== src/Limine/Memmap/Sorted.antt =====
-- The sorting of `sanitise_entries` puts the entries in the order of their bases.
use orionis_os.Base.{
  ◌∙◌, ℕ, zero, suc, ◌+◌, ◌-◌, ◌≤◌, ◌<◌, ◌≡◌, ◌≢◌, refl, ap, sym, List, [], ◌∷◌, arith, ltb, ◌==◌,
  length, get_or, set, length-set, Bool-cases, inl, inr,
}
use orionis_os.Limine.Memmap.{Entry, no_entry, min_index, swap, sort_loop}
use orionis_os.Limine.Memmap.Range.{tally}
use orionis_os.Limine.Memmap.Sort.{at_index, length-swap, min_index-bound, sort_loop-tally}

abbrev base_at : List Entry → ℕ → ℕ
base_at es k = (at_index es k).base

set-here : (es : List Entry) (i : ℕ) (f : Entry) → i < length es → at_index (set es i f) i ≡ f
set-here [] i f lt = absurd (omega arith)
set-here (e ∷ es) zero f lt = refl
set-here (e ∷ es) (suc i) f lt = set-here es i f (omega arith)

set-apart :
    (es : List Entry) (i k : ℕ) (f : Entry) → i ≢ k → at_index (set es i f) k ≡ at_index es k
set-apart [] i k f ne = refl
set-apart (e ∷ es) zero zero f ne = absurd (ne refl)
set-apart (e ∷ es) zero (suc k) f ne = refl
set-apart (e ∷ es) (suc i) zero f ne = refl
set-apart (e ∷ es) (suc i) (suc k) f ne = set-apart es i k f (omega (arith, ne))

module _ (es : List Entry) (p q : ℕ) (low : p < length es) (high : q < length es) where
  swap-first : at_index (swap p q es) p ≡ at_index es q
  unfolding swap
  swap-first =
      set-here (set es q (at_index es p)) p (at_index es q)
        (omega (arith, low, length-set es q (at_index es p)))

  swap-second : q ≢ p → at_index (swap p q es) q ≡ at_index es p
  unfolding swap
  swap-second ne =
      set-apart (set es q (at_index es p)) p q (at_index es q) (λ e. ne (sym e))
      ∙ set-here es q (at_index es p) high

  swap-other : (k : ℕ) → p ≢ k → q ≢ k → at_index (swap p q es) k ≡ at_index es k
  unfolding swap
  swap-other k ne ne' =
      set-apart (set es q (at_index es p)) p k (at_index es q) ne
      ∙ set-apart es q k (at_index es p) ne'

-- No base from index `p` on is below `b`.
abbrev AreFrom : ℕ → ℕ → List Entry → Type 0
AreFrom b p es = (k : ℕ) → p ≤ k → k < length es → b ≤ base_at es k

swap-AreFrom :
    (b p q : ℕ) (es : List Entry)
    → p ≤ q
    → q < length es
    → AreFrom b p es
    → AreFrom b p (swap p q es)
swap-AreFrom b p q es le lt h k low high =
    let len = length-swap p q es in
    elim (Bool-cases (p == k)) [
      | inl first ↦
          let e : k ≡ p = ground (arith, first) in
          let moved = ap (λ f. f.base) (swap-first es p q (omega (arith, le, lt)) lt) in
          rw (e, moved) (h q le lt)
      | inr more ↦ elim (Bool-cases (q == k)) [
        | inl second ↦
            let e : k ≡ q = ground (arith, second) in
            let ne : q ≢ p = ground (arith, more, e) in
            let moved = ap (λ f. f.base) (swap-second es p q (omega (arith, le, lt)) lt ne) in
            rw (e, moved) (h p (omega arith) (omega (arith, le, lt)))
        | inr other ↦
            let same =
              ap (λ f. f.base)
                (swap-other es p q (omega (arith, le, lt)) lt k (ground (arith, more))
                  (ground (arith, other))) in
            rw same (h k low (omega (arith, high, len)))
      ]
    ]

min_index-least :
    (n i least at : ℕ) (es : List Entry)
    → base_at es at ≡ least
    → (base_at es (min_index n i least at es) ≤ least)
      × ((k : ℕ) → i ≤ k → k < i + n → base_at es (min_index n i least at es) ≤ base_at es k)
unfolding min_index
min_index-least zero i least at es e =
    (omega (arith, e), λ k low high. absurd (omega (arith, low, high)))
min_index-least (suc n) i least at es e = elim (Bool-cases (ltb (base_at es i) least)) [
  | inl less ↦
      let (below, rest) = min_index-least n (i + 1) (base_at es i) i es refl in
      rw less (
        ground (arith, less, below),
        λ k low high. elim (Bool-cases (k == i)) [
          | inl here ↦ let same : k ≡ i = ground (arith, here) in rw same below
          | inr later ↦ rest k (ground (arith, later, low)) (omega (arith, high))
        ],
      )
  | inr more ↦
      let (below, rest) = min_index-least n (i + 1) least at es e in
      rw more (
        below,
        λ k low high. elim (Bool-cases (k == i)) [
          | inl here ↦
              let same : k ≡ i = ground (arith, here) in rw same (ground (arith, more, below))
          | inr later ↦ rest k (ground (arith, later, low)) (omega (arith, high))
        ],
      )
]

min_index-from :
    (n i least at p : ℕ) (es : List Entry) → p ≤ i → p ≤ at → p ≤ min_index n i least at es
unfolding min_index
min_index-from zero i least at p es h h' = h'
min_index-from (suc n) i least at p es h h' = elim (Bool-cases (ltb (base_at es i) least)) [
  | inl less ↦ rw less (min_index-from n (i + 1) (base_at es i) i p es (omega (arith, h)) h)
  | inr more ↦ rw more (min_index-from n (i + 1) least at p es (omega (arith, h)) h')
]

-- From index `p` on `es'` is `es` in order, and in front of it the same.
record Sorts (p : ℕ) (es es' : List Entry) : Type 0 where
  pub long : length es' ≡ length es
  pub before : (k : ℕ) → k < p → at_index es' k ≡ at_index es k
  pub bound : (b : ℕ) → AreFrom b p es → AreFrom b p es'
  pub sorted : (i j : ℕ) → p ≤ i → i ≤ j → j < length es → base_at es' i ≤ base_at es' j

step-Sorts :
    (p q : ℕ) (es es' : List Entry)
    → p ≤ q
    → q < length es
    → AreFrom (base_at es q) p es
    → Sorts (p + 1) (swap p q es) es'
    → Sorts p es es'
step-Sorts p q es es' le lt least h =
    let len = length-swap p q es in
    let here : base_at es' p ≡ base_at es q =
      ap (λ f. f.base) (h.before p (omega arith) ∙ swap-first es p q (omega (arith, le, lt)) lt) in
    let long : length es' ≡ length es = h.long ∙ len in
    record {
      long = long;
      before = λ k low.
          h.before k (omega (arith, low))
          ∙ swap-other es p q (omega (arith, le, lt)) lt k (omega (arith, low))
              (omega (arith, low, le));
      bound = λ b from k low high. elim (Bool-cases (p == k)) [
        | inl first ↦ let e : k ≡ p = ground (arith, first) in rw (e, here) (from q le lt)
        | inr more ↦
            h.bound b
              (λ j low' high'. swap-AreFrom b p q es le lt from j (omega (arith, low')) high') k
              (ground (arith, more, low)) high
      ];
      sorted = λ i j low between high. elim (Bool-cases (p == i)) [
        | inr more ↦ h.sorted i j (ground (arith, more, low)) between (omega (arith, high, len))
        | inl first ↦
            let e : i ≡ p = ground (arith, first) in
            elim (Bool-cases (p == j)) [
              | inl last ↦ let e' : j ≡ p = ground (arith, last) in rw (e, e') (omega arith)
              | inr later ↦
                  rw (e, here)
                    (h.bound (base_at es q)
                      (λ k low' high'.
                        swap-AreFrom (base_at es q) p q es le lt least k (omega (arith, low'))
                          high')
                      j (ground (arith, later, between, e)) (omega (arith, high, long)))
            ]
      ];
    }

sort_loop-Sorts :
    (n p : ℕ) (es : List Entry) → p + n + 1 ≡ length es → Sorts p es (sort_loop n p es)
unfolding sort_loop
sort_loop-Sorts zero p es e = record {
  long = refl;
  before = λ k low. refl;
  bound = λ b from. from;
  sorted = λ i j low between high.
      let same : i ≡ j = omega (arith, low, between, high, e) in rw same (omega arith);
}
sort_loop-Sorts (suc n) p es e =
    let q = min_index (length es - p) p (base_at es p) p es in
    let bound = min_index-bound (length es - p) p (base_at es p) p es (omega arith) (omega arith) in
    let from = min_index-from (length es - p) p (base_at es p) p p es (omega arith) (omega arith) in
    let (below, least) = min_index-least (length es - p) p (base_at es p) p es refl in
    let len = length-swap p q es in
    step-Sorts p q es (sort_loop n (p + 1) (swap p q es)) from bound
      (λ k low high. least k low (omega (arith, low, high)))
      (sort_loop-Sorts n (p + 1) (swap p q es) (omega (arith, len, e)))

-- The sorting loop of a map that is not empty leaves the entries in the order of their bases, and does not
-- change by how many entries of each type each byte is held.
pub sort_loop-sorted :
    (es : List Entry)
    → length es ≢ 0
    → ((i j : ℕ)
        → i ≤ j
        → j < length es
        → (get_or (sort_loop (length es - 1) 0 es) i no_entry).base
          ≤ (get_or (sort_loop (length es - 1) 0 es) j no_entry).base)
      × ((t a : ℕ) → tally t a (sort_loop (length es - 1) 0 es) ≡ tally t a es)
sort_loop-sorted es some_entry =
    let h = sort_loop-Sorts (length es - 1) 0 es (omega (arith, some_entry)) in
    (
      λ i j between high. h.sorted i j (omega arith) between high,
      λ t a. sort_loop-tally t a (length es - 1) 0 es (omega (arith, some_entry)),
    )
