-- ===== src/Limine/Memmap/Range.antt =====
-- `memmap_alloc_range`: the map before and after, byte by byte and type by type.
use orionis_os.Base.{
  Bool, ℕ, zero, suc, ◌+◌, ◌-◌, ◌^◌, ◌≤◌, ◌<◌, ◌≡◌, ◌≢◌, refl, true, false, List, [], ◌∷◌, ◌++◌,
  arith, leb, ◌==◌, ◌&&◌, ◌||◌, u64, All, length, get_or, set, length-append, length-set,
  if◌then◌else◌, Bool-cases, inl, inr,
}
use orionis_os.Limine.Memmap.{
  Entry, no_entry, Outcome, panic, out_of_bounds, done, usable, memmap_max_entries, between, top_of,
  erase, contains, keep_below, add_above, carve, range_loop, memmap_alloc_range,
}

-- 1 if the entry is of type `t` and holds byte `a`, else 0.
abbrev pub holds_byte : ℕ → ℕ → Entry → ℕ
holds_byte t a e = if e.type == t && between e.base (e.base + e.length) a then 1 else 0

-- How many entries of type `t` hold byte `a`.
unfoldable pub tally : ℕ → ℕ → List Entry → ℕ
tally t a [] = 0
tally t a (e ∷ es) = holds_byte t a e + tally t a es

abbrev pub NoWrap : Entry → Type 0
NoWrap e = e.base + e.length < 2 ^ 64

module _ (t a : ℕ) where
  tally-append : (es fs : List Entry) → tally t a (es ++ fs) ≡ tally t a es + tally t a fs
  unfolding tally
  tally-append [] fs = omega arith
  tally-append (e ∷ es) fs = omega (arith, tally-append es fs)

  pub tally-erase :
      (es : List Entry) (i : ℕ)
      → i < length es
      → tally t a es ≡ tally t a (erase es i) + holds_byte t a (get_or es i no_entry)
  unfolding tally
  tally-erase [] i lt = absurd (omega arith)
  tally-erase (e ∷ es) zero lt = omega arith
  tally-erase (e ∷ es) (suc i) lt = omega (arith, tally-erase es i (omega arith))

  pub tally-set :
      (es : List Entry) (i : ℕ) (f : Entry)
      → i < length es
      → tally t a (set es i f) + holds_byte t a (get_or es i no_entry)
        ≡ tally t a es + holds_byte t a f
  unfolding tally
  tally-set [] i f lt = absurd (omega arith)
  tally-set (e ∷ es) zero f lt = omega arith
  tally-set (e ∷ es) (suc i) f lt = omega (arith, tally-set es i f (omega arith))

pub length-erase : (es : List Entry) (i : ℕ) → length (erase es i) ≤ length es
length-erase [] i = omega arith
length-erase (e ∷ es) zero = omega arith
length-erase (e ∷ es) (suc i) = omega (arith, length-erase es i)

pub All-get_or :
    (es : List Entry) (i : ℕ) → All NoWrap es → i < length es → NoWrap (get_or es i no_entry)
All-get_or [] i h lt = absurd (omega arith)
All-get_or (e ∷ es) zero h lt = h.0
All-get_or (e ∷ es) (suc i) h lt = All-get_or es i h.1 (omega arith)

-- In the map `es'` the range from `base` on has gone over from usable memory to `type`, and no byte
-- outside it has changed.
abbrev pub Moved : ℕ → ℕ → ℕ → List Entry → List Entry → Type 0
Moved base size type es es' =
    (t a : ℕ)
    → tally t a es' + (if t == usable && between base (base + size) a then 1 else 0)
      ≡ tally t a es + (if type == t && between base (base + size) a then 1 else 0)

keep_below-tally :
    (t a i below : ℕ) (es : List Entry)
    → i < length es
    → tally t a (keep_below i below es) + holds_byte t a (get_or es i no_entry)
      ≡ tally t a es + holds_byte t a (record (get_or es i no_entry) { length = below })
unfolding keep_below
keep_below-tally t a i below es lt = elim (Bool-cases (below == 0)) [
  | inl none_left ↦ rw none_left (ground (arith, tally-erase t a es i lt))
  | inr some_left ↦
      rw some_left (tally-set t a es i (record (get_or es i no_entry) { length = below }) lt)
]

add_above-tally :
    (t a top above : ℕ) (es : List Entry)
    → tally t a (add_above top above es)
      ≡ tally t a es + holds_byte t a (record { base = top; length = above; type = usable })
unfolding add_above tally
add_above-tally t a top above es = elim (Bool-cases (above == 0)) [
  | inl none_left ↦ rw none_left (ground arith)
  | inr some_left ↦ rw some_left (
      omega
        (arith, tally-append t a es (record { base = top; length = above; type = usable } ∷ [])))
]

pub keep_below-length : (i below : ℕ) (es : List Entry) → length (keep_below i below es) ≤ length es
unfolding keep_below
keep_below-length i below es =
    ground
      (arith, length-erase es i, length-set es i (record (get_or es i no_entry) { length = below }))

add_above-length :
    (top above : ℕ) (es : List Entry) → length (add_above top above es) ≤ length es + 1
unfolding add_above
add_above-length top above es =
    ground (arith, length-append es (record { base = top; length = above; type = usable } ∷ []))

module _ (e : Entry) (base size : ℕ) (wrap : NoWrap e) (fits : base + size < 2 ^ 64)
    (here : contains e base (u64 (base + size)) ≡ true) where
  contains_bounds : (e.type ≡ usable) × (e.base ≤ base) × (base + size ≤ e.base + e.length)
  unfolding contains
  contains_bounds = ground arith

  -- The entry is the part below, the range and the part above.
  parts :
      (t a : ℕ)
      → holds_byte t a e
        ≡ holds_byte t a (record e { length = u64 (base + 2 ^ 64 - e.base) })
          + (if t == usable && between base (base + size) a then 1 else 0)
          + holds_byte t a (record {
            base = u64 (base + size);
            length = u64 (top_of e + 2 ^ 64 - u64 (base + size));
            type = usable;
          })
  parts t a =
      let (is_usable, low, high) = contains_bounds in
      let below : u64 (base + 2 ^ 64 - e.base) ≡ base - e.base = omega arith in
      let top : u64 (base + size) ≡ base + size = omega arith in
      let above : u64 (top_of e + 2 ^ 64 - (base + size)) ≡ e.base + e.length - (base + size) =
        omega arith in
      rw (below, top, above) (ground arith)

tally-one : (t a : ℕ) (e : Entry) → tally t a (e ∷ []) ≡ holds_byte t a e
unfolding tally
tally-one t a e = omega arith

module _ (i base size type : ℕ) (es : List Entry) (sound : All NoWrap es)
    (fits : base + size < 2 ^ 64) (lt : i < length es)
    (here : contains (get_or es i no_entry) base (u64 (base + size)) ≡ true)
    (room : length es + 2 ≤ memmap_max_entries) where
  abbrev e : Entry
  e = get_or es i no_entry

  abbrev rest : List Entry
  rest = keep_below i (u64 (base + 2 ^ 64 - e.base)) es

  abbrev rest' : List Entry
  rest' = add_above (u64 (base + size)) (u64 (top_of e + 2 ^ 64 - u64 (base + size))) rest

  abbrev range : Entry
  range = record { base = base; length = size; type = type }

  room_left :
      (leb memmap_max_entries (length rest) || leb memmap_max_entries (length rest')) ≡ false
  room_left = ground (
    arith,
    keep_below-length i (u64 (base + 2 ^ 64 - e.base)) es,
    add_above-length (u64 (base + size)) (u64 (top_of e + 2 ^ 64 - u64 (base + size))) rest,
  )

  carve-done : carve i base size type es ≡ done (rest' ++ range ∷ [])
  unfolding carve
  carve-done = rw room_left refl

  carve-Moved :
      (es' : List Entry) × (carve i base size type es ≡ done es') × Moved base size type es es'
  carve-Moved = (
    rest' ++ range ∷ [],
    carve-done,
    λ t a. omega (
      arith,
      tally-append t a rest' (range ∷ []),
      tally-one t a range,
      add_above-tally t a (u64 (base + size)) (u64 (top_of e + 2 ^ 64 - u64 (base + size))) rest,
      keep_below-tally t a i (u64 (base + 2 ^ 64 - e.base)) es lt,
      parts e base size (All-get_or es i sound lt) fits here t a,
    ),
  )

range_loop-Moved :
    (n i k base size type : ℕ) (es : List Entry)
    → All NoWrap es
    → base + size < 2 ^ 64
    → i + n ≡ length es
    → i ≤ k
    → k < length es
    → contains (get_or es k no_entry) base (u64 (base + size)) ≡ true
    → length es + 2 ≤ memmap_max_entries
    → (es' : List Entry) × (range_loop n i base size type es ≡ done es')
      × Moved base size type es es'
unfolding range_loop
range_loop-Moved zero i k base size type es sound fits e le lt here room = absurd (omega arith)
range_loop-Moved (suc n) i k base size type es sound fits e le lt here room =
    elim (Bool-cases (contains (get_or es i no_entry) base (u64 (base + size)))) [
      | inl found ↦ rw found (carve-Moved i base size type es sound fits (omega arith) found room)
      | inr other ↦
          let ne : i ≢ k = λ same. cc in
          rw other (
            range_loop-Moved n (i + 1) k base size type es sound fits (omega arith) (omega arith) lt
              here room)
    ]

-- Where some usable entry of a map without wrapping entries contains the range, and the map has room
-- for two more entries, `memmap_alloc_range` returns a map in which exactly the bytes of the range
-- have gone over from usable memory to the given type, and every byte is held by as many entries of
-- each other type as before.
pub memmap_alloc_range-Moved :
    (base size type k : ℕ) (es : List Entry)
    → All NoWrap es
    → base + size < 2 ^ 64
    → k < length es
    → contains (get_or es k no_entry) base (u64 (base + size)) ≡ true
    → length es + 2 ≤ memmap_max_entries
    → (es' : List Entry) × (memmap_alloc_range base size type es ≡ done es')
      × Moved base size type es es'
unfolding memmap_alloc_range
memmap_alloc_range-Moved base size type k es sound fits lt here room =
    range_loop-Moved (length es) 0 k base size type es sound fits (omega arith) (omega arith) lt
      here room

-- A range that is not found is a panic, and the search always ends.
abbrev pub Ends {ℓ} : {A : Type ℓ} → Outcome A → Type 0
Ends (done x) = Unit
Ends panic = Unit
Ends out_of_bounds = ⊥

if-Ends : {A : Type 0} (t : Bool) (x y : Outcome A) → Ends x → Ends y → Ends (if t then x else y)
if-Ends true x y hx hy = hx
if-Ends false x y hx hy = hy

carve-Ends : (i base size type : ℕ) (es : List Entry) → Ends (carve i base size type es)
unfolding carve
carve-Ends i base size type es =
    let e = get_or es i no_entry in
    let top = u64 (base + size) in
    let rest = keep_below i (u64 (base + 2 ^ 64 - e.base)) es in
    let rest' = add_above top (u64 (top_of e + 2 ^ 64 - top)) rest in
    if-Ends (leb memmap_max_entries (length rest) || leb memmap_max_entries (length rest')) panic
      (done (rest' ++ record { base = base; length = size; type = type } ∷ [])) tt tt

range_loop-Ends :
    (n i base size type : ℕ) (es : List Entry) → Ends (range_loop n i base size type es)
unfolding range_loop
range_loop-Ends zero i base size type es = tt
range_loop-Ends (suc n) i base size type es =
    if-Ends (contains (get_or es i no_entry) base (u64 (base + size))) _ _
      (carve-Ends i base size type es) (range_loop-Ends n (i + 1) base size type es)

pub memmap_alloc_range-Ends :
    (base size type : ℕ) (es : List Entry) → Ends (memmap_alloc_range base size type es)
unfolding memmap_alloc_range
memmap_alloc_range-Ends base size type es = range_loop-Ends (length es) 0 base size type es
