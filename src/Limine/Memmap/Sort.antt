-- ===== src/Limine/Memmap/Sort.antt =====
-- The sorting and the merging of `sanitise_entries`: what the map holds before and after.
use orionis_os.Base.{
  ◌∙◌, ℕ, zero, suc, ◌+◌, ◌-◌, ◌≤◌, ◌<◌, ◌≡◌, refl, ap, true, List, [], ◌∷◌, arith, ltb, u64, All,
  length, get_or, set, length-set, Bool-cases, inl, inr,
}
use orionis_os.Limine.Memmap.{
  Entry, no_entry, erase, min_index, swap, sort_loop, contiguous, merge_loop,
}
use orionis_os.Limine.Memmap.Range.{holds_byte, tally, tally-set, tally-erase, NoWrap, All-get_or}

abbrev pub at_index : List Entry → ℕ → Entry
at_index es i = get_or es i no_entry

pub length-swap : (p q : ℕ) (es : List Entry) → length (swap p q es) ≡ length es
unfolding swap
length-swap p q es =
    length-set (set es q (at_index es p)) p (at_index es q) ∙ length-set es q (at_index es p)

set-other :
    (es : List Entry) (p q : ℕ)
    → q < length es
    → at_index (set es q (at_index es p)) p ≡ at_index es p
set-other [] p q lt = absurd (omega arith)
set-other (e ∷ es) zero zero lt = refl
set-other (e ∷ es) zero (suc q) lt = refl
set-other (e ∷ es) (suc p) zero lt = refl
set-other (e ∷ es) (suc p) (suc q) lt = set-other es p q (omega arith)

tally-swap :
    (t a p q : ℕ) (es : List Entry)
    → p < length es
    → q < length es
    → tally t a (swap p q es) ≡ tally t a es
unfolding swap
tally-swap t a p q es lt lt' =
    let moved = set es q (at_index es p) in
    let same : holds_byte t a (at_index moved p) ≡ holds_byte t a (at_index es p) =
      ap (holds_byte t a) (set-other es p q lt') in
    omega (
      arith,
      tally-set t a es q (at_index es p) lt',
      tally-set t a moved p (at_index es q) (omega (arith, length-set es q (at_index es p))),
      same,
    )

pub min_index-bound :
    (n i least at : ℕ) (es : List Entry)
    → i + n ≤ length es
    → at < length es
    → min_index n i least at es < length es
unfolding min_index
min_index-bound zero i least at es h lt = lt
min_index-bound (suc n) i least at es h lt = elim (Bool-cases (ltb (at_index es i).base least)) [
  | inl less ↦
      rw less (min_index-bound n (i + 1) (at_index es i).base i es (omega arith) (omega arith))
  | inr more ↦ rw more (min_index-bound n (i + 1) least at es (omega arith) lt)
]

-- With fewer rounds than entries are left, the sorting loop does not change by how many entries of
-- each type each byte is held.
pub sort_loop-tally :
    (t a n p : ℕ) (es : List Entry)
    → p + n < length es
    → tally t a (sort_loop n p es) ≡ tally t a es
unfolding sort_loop
sort_loop-tally t a zero p es h = refl
sort_loop-tally t a (suc n) p es h =
    let q = min_index (length es - p) p (at_index es p).base p es in
    let bound =
      min_index-bound (length es - p) p (at_index es p).base p es (omega arith) (omega arith) in
    sort_loop-tally t a n (p + 1) (swap p q es) (omega (arith, length-swap p q es))
    ∙ tally-swap t a p q es (omega arith) bound

All-set : (es : List Entry) (i : ℕ) (f : Entry) → All NoWrap es → NoWrap f → All NoWrap (set es i f)
All-set [] i f h hf = tt
All-set (e ∷ es) zero f (he, h) hf = (hf, h)
All-set (e ∷ es) (suc i) f (he, h) hf = (he, All-set es i f h hf)

All-erase : (es : List Entry) (i : ℕ) → All NoWrap es → All NoWrap (erase es i)
All-erase [] i h = tt
All-erase (e ∷ es) zero (he, h) = h
All-erase (e ∷ es) (suc i) (he, h) = (he, All-erase es i h)

erase-long : (es : List Entry) (i : ℕ) → length es ≤ length (erase es i) + 1
erase-long [] i = omega arith
erase-long (e ∷ es) zero = omega arith
erase-long (e ∷ es) (suc i) = omega (arith, erase-long es i)

set-next : (es : List Entry) (i k : ℕ) (f : Entry) → i < k → at_index (set es i f) k ≡ at_index es k
set-next [] i k f lt = refl
set-next (e ∷ es) i zero f lt = absurd (omega arith)
set-next (e ∷ es) zero (suc k) f lt = refl
set-next (e ∷ es) (suc i) (suc k) f lt = set-next es i k f (omega arith)

abbrev joined : Entry → Entry → Entry
joined e f = record e { length = u64 (e.length + f.length) }

module _ (e f : Entry) (sound : NoWrap e) (sound' : NoWrap f) (next : contiguous e f ≡ true) where
  joined-NoWrap : NoWrap (joined e f)
  unfolding contiguous
  joined-NoWrap = ground (arith, next)

  joined-holds : (t a : ℕ) → holds_byte t a (joined e f) ≡ holds_byte t a e + holds_byte t a f
  unfolding contiguous
  joined-holds t a = ground (arith, next)

-- One merge takes the second entry out and gives its bytes to the first.
merge-tally :
    (t a i : ℕ) (es : List Entry)
    → All NoWrap es
    → i + 1 < length es
    → contiguous (at_index es i) (at_index es (i + 1)) ≡ true
    → tally t a (erase (set es i (joined (at_index es i) (at_index es (i + 1)))) (i + 1))
      ≡ tally t a es
merge-tally t a i es sound lt next =
    let e = at_index es i in
    let f = at_index es (i + 1) in
    let grown = set es i (joined e f) in
    let same : holds_byte t a (at_index grown (i + 1)) ≡ holds_byte t a f =
      ap (holds_byte t a) (set-next es i (i + 1) (joined e f) (omega arith)) in
    omega (
      arith,
      tally-set t a es i (joined e f) (omega arith),
      tally-erase t a grown (i + 1) (omega (arith, length-set es i (joined e f))),
      joined-holds e f (All-get_or es i sound (omega arith)) (All-get_or es (i + 1) sound lt) next t
          a,
      same,
    )

-- In a map without wrapping entries, and with fewer rounds than entries are left, the merging loop
-- does not change by how many entries of each type each byte is held.
pub merge_loop-tally :
    (t a n i : ℕ) (es : List Entry)
    → All NoWrap es
    → i + n < length es
    → tally t a (merge_loop n i es) ≡ tally t a es
unfolding merge_loop
merge_loop-tally t a zero i es sound h = refl
merge_loop-tally t a (suc n) i es sound h =
    let e = at_index es i in
    let f = at_index es (i + 1) in
    elim (Bool-cases (contiguous e f)) [
      | inl next ↦
          let grown = set es i (joined e f) in
          let joined-fits =
            joined-NoWrap e f (All-get_or es i sound (omega arith))
              (All-get_or es (i + 1) sound (omega arith)) next in
          rw next (
            merge_loop-tally t a n i (erase grown (i + 1))
              (All-erase grown (i + 1) (All-set es i (joined e f) sound joined-fits))
              (omega (arith, erase-long grown (i + 1), length-set es i (joined e f)))
            ∙ merge-tally t a i es sound (omega arith) next)
      | inr apart ↦ rw apart (merge_loop-tally t a n (i + 1) es sound (omega arith))
    ]
