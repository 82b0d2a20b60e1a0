-- ===== src/Limine/Memmap/Refusal.antt =====
-- When `memmap_alloc_range` panics.
use orionis_os.Base.{
  Bool, ℕ, zero, suc, ◌+◌, ◌-◌, ◌^◌, ◌≤◌, ◌<◌, ◌≡◌, ◌⊎◌, refl, true, false, List, [], ◌∷◌, ◌++◌,
  arith, leb, ◌==◌, ◌||◌, u64, length, get_or, length-append, if◌then◌else◌, Bool-cases, inl, inr,
}
use orionis_os.Limine.Memmap.{
  Entry, no_entry, panic, done, usable, memmap_max_entries, top_of, contains, keep_below, add_above,
  carve, range_loop, memmap_alloc_range,
}
use orionis_os.Limine.Memmap.Range.{keep_below-length}

-- No usable entry contains the range, or the map is full but for at most one entry.
abbrev pub NoRoom : ℕ → ℕ → List Entry → Type 0
NoRoom base size es =
    ((k : ℕ) → k < length es → contains (get_or es k no_entry) base (u64 (base + size)) ≡ false)
    ⊎ (memmap_max_entries ≤ length es + 1)

add_above-length :
    (top above : ℕ) (es : List Entry) → length (add_above top above es) ≤ length es + 1
unfolding add_above
add_above-length top above es =
    let e : Entry = record { base = top; length = above; type = usable } in
    elim (Bool-cases (above == 0)) [
      | inl none_left ↦ rw none_left (omega arith)
      | inr some_left ↦ rw some_left (omega (arith, length-append es (e ∷ [])))
    ]

if_panics : (t : Bool) (es : List Entry) → (if t then panic else done es) ≡ panic → t ≡ true
if_panics true es e = refl
if_panics false es e = cc

carve_panics :
    (i base size type : ℕ) (es : List Entry)
    → carve i base size type es ≡ panic
    → memmap_max_entries ≤ length es + 1
unfolding carve
carve_panics i base size type es e =
    let f = get_or es i no_entry in
    let top = u64 (base + size) in
    let below = u64 (base + 2 ^ 64 - f.base) in
    let above = u64 (top_of f + 2 ^ 64 - top) in
    let rest = keep_below i below es in
    let rest' = add_above top above rest in
    let full =
      if_panics (leb memmap_max_entries (length rest) || leb memmap_max_entries (length rest'))
        (rest' ++ record { base = base; length = size; type = type } ∷ []) e in
    let low = keep_below-length i below es in
    let high = add_above-length top above rest in ground (arith, full, low, high)

range_loop_panics :
    (n i base size type : ℕ) (es : List Entry)
    → i + n ≡ length es
    → range_loop n i base size type es ≡ panic
    → ((k : ℕ)
        → i ≤ k
        → k < length es
        → contains (get_or es k no_entry) base (u64 (base + size)) ≡ false)
      ⊎ (memmap_max_entries ≤ length es + 1)
unfolding range_loop
range_loop_panics zero i base size type es e panics =
    inl (λ k low lt. absurd (omega (arith, e, low, lt)))
range_loop_panics (suc n) i base size type es e panics =
    elim (Bool-cases (contains (get_or es i no_entry) base (u64 (base + size)))) [
      | inl found ↦ inr (carve_panics i base size type es (rw found at panics))
      | inr other ↦
          elim (range_loop_panics n (i + 1) base size type es (omega (arith, e))
            (rw other at panics)) [
              | inr full ↦ inr full
              | inl rest ↦ inl (λ k low lt. elim (Bool-cases (k == i)) [
                | inl same ↦ let here : k ≡ i = ground (arith, same) in rw here other
                | inr more ↦ rest k (ground (arith, more, low)) lt
              ])
            ]
    ]

-- A panic of `memmap_alloc_range` means that there is no room.
pub memmap_alloc_range-NoRoom :
    (base size type : ℕ) (es : List Entry)
    → memmap_alloc_range base size type es ≡ panic
    → NoRoom base size es
unfolding memmap_alloc_range
memmap_alloc_range-NoRoom base size type es e =
    elim (range_loop_panics (length es) 0 base size type es (omega arith) e) [
      | inl nowhere ↦ inl (λ k lt. nowhere k (omega arith) lt)
      | inr full ↦ inr full
    ]
