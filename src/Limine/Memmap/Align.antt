-- ===== src/Limine/Memmap/Align.antt =====
-- `align_entry`: what it keeps of an entry.
use orionis_os.Base.{
  false, ℕ, ◌+◌, ◌-◌, ◌/◌, ◌%◌, ◌^◌, ◌≤◌, ◌<◌, ◌≡◌, ◌⊎◌, refl, false, Option, none, some, arith,
  ltb, u64, Bool-cases, inl, inr,
}
use orionis_os.Limine.Memmap.{page_size, memmap_base, align_up, align_down, above_base, align_entry}

-- The whole pages of an entry, above 1 MiB.
pub record IsAligned (base length base' length' : ℕ) : Type 0 where
  pub base_page : base' % page_size ≡ 0
  pub length_page : length' % page_size ≡ 0
  pub above : memmap_base ≤ base'
  pub starts : base ≤ base'
  pub ends : base' + length' ≤ base + length
  -- No whole page is lost at either end.
  pub no_page_below : (base' ≡ memmap_base) ⊎ (base' < base + page_size)
  pub no_page_above : base + length < base' + length' + page_size

-- What `align_entry` may return.
pub data Aligned (base length : ℕ) : Option (ℕ × ℕ) → Type 0 where
  kept : (b l : ℕ) → IsAligned base length b l → Aligned base length (some (b, l))
  dropped :
      (length < page_size) ⊎ (base + length < memmap_base + page_size) → Aligned base length none

-- The whole pages of the entry, before the first MiB is looked at.
record IsPaged (base length b l : ℕ) : Type 0 where
  b_page : b % page_size ≡ 0
  l_page : l % page_size ≡ 0
  starts : base ≤ b
  near : b < base + page_size
  ends : b + l ≤ base + length
  last : base + length < b + l + page_size

page_part : ℕ → ℕ → ℕ
page_part base length = align_down (u64 (length + 2 ^ 64 - u64 (align_up base + 2 ^ 64 - base)))

page_part-IsPaged :
    (base length : ℕ)
    → base + length + page_size < 2 ^ 64
    → page_size ≤ length
    → IsPaged base length (align_up base) (page_part base length)
unfolding page_part
page_part-IsPaged base length h long = record {
  b_page = omega arith;
  l_page = omega arith;
  starts = omega arith;
  near = omega arith;
  ends = omega arith;
  last = omega arith;
}

-- An entry that reaches over the first MiB.
cut_low :
    (base length b l : ℕ)
    → IsPaged base length b l
    → base + length + page_size < 2 ^ 64
    → b < memmap_base
    → memmap_base < u64 (b + l)
    → IsAligned base length memmap_base (u64 (l + 2 ^ 64 - (memmap_base - b)))
cut_low base length b l p h low over = record {
  base_page = refl;
  length_page = omega (arith, p.b_page, p.l_page, p.ends);
  above = omega arith;
  starts = omega (arith, p.starts);
  ends = omega (arith, p.ends);
  no_page_below = inl refl;
  no_page_above = omega (arith, p.ends, p.last);
}

above_base-Aligned :
    (base length b l : ℕ)
    → IsPaged base length b l
    → base + length + page_size < 2 ^ 64
    → Aligned base length (above_base b l)
unfolding above_base
above_base-Aligned base length b l p h = elim (Bool-cases (ltb b memmap_base)) [
  | inl low ↦ elim (Bool-cases (ltb memmap_base (u64 (b + l)))) [
    | inl over ↦
        rw (low, over)
          (kept memmap_base (u64 (l + 2 ^ 64 - (memmap_base - b)))
            (cut_low base length b l p h (ground arith) (ground arith)))
    | inr under ↦ rw (low, under) (dropped (inr (ground (arith, p.ends, p.last))))
  ]
  | inr high ↦ rw high (
      kept b l (record {
        base_page = p.b_page;
        length_page = p.l_page;
        above = ground arith;
        starts = p.starts;
        ends = p.ends;
        no_page_below = inr p.near;
        no_page_above = p.last;
      }))
]

-- For an entry that ends a page below 2 ^ 64, `align_entry` keeps the whole pages above 1 MiB, or
-- drops an entry that is shorter than a page or has no whole page above 1 MiB.
pub align_entry-Aligned :
    (base length : ℕ)
    → base + length + page_size < 2 ^ 64
    → Aligned base length (align_entry base length)
unfolding align_entry page_part
align_entry-Aligned base length h = elim (Bool-cases (ltb length page_size)) [
  | inl short ↦ rw short (dropped (inl (ground arith)))
  | inr long ↦ rw long (
      above_base-Aligned base length (align_up base) (page_part base length)
        (page_part-IsPaged base length h (ground arith)) h)
]

-- An entry above 1 MiB that is no shorter than a page but holds no whole page is not dropped: it is
-- kept with length 0.
pub align_entry_empty :
    (base length : ℕ)
    → base + length + page_size < 2 ^ 64
    → memmap_base ≤ base
    → page_size ≤ length
    → (base + length) / page_size ≡ (base + (page_size - 1)) / page_size
    → align_entry base length ≡ some (align_up base, 0)
unfolding align_entry above_base
align_entry_empty base length h high long none_whole =
    let short : ltb length page_size ≡ false = ground arith in
    let above : ltb (align_up base) memmap_base ≡ false = ground arith in
    let empty : align_down (u64 (length + 2 ^ 64 - u64 (align_up base + 2 ^ 64 - base))) ≡ 0 =
      omega arith in
    rw (short, above, empty) refl
