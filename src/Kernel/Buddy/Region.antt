-- ===== src/Kernel/Buddy/Region.antt =====
-- One region of `buddy_init`: its whole pages become blocks of the free lists.
use native.Mathlib.Nat.{mod-add-div'}
use orionis_os.Base.{
  ℕ, zero, suc, ◌+◌, ◌-◌, ◌*◌, ◌/◌, ◌%◌, ◌^◌, ◌≤◌, ◌<◌, ◌≡◌, ◌≢◌, refl, Bool, false, not, ◌||◌,
  ◌&&◌, some, ◌∷◌, arith, ltb, leb, ◌==◌, if◌then◌else◌, u64, Bool-cases, inl, inr,
}
use orionis_os.Kernel.Pmm.{page_size}
use orionis_os.Kernel.Buddy.{Buddy, min_order, max_order, push, fit_order, add_block, add_region}
use orionis_os.Kernel.Buddy.Order.{by_order}
use orionis_os.Kernel.Buddy.Lists.{
  FreeLists, inside, cover, replace, Holds, Loose, push-Holds, cover-cons,
}

-- 1 if `lo ≤ a < lo + size`, else 0.
abbrev pub within : ℕ → ℕ → ℕ → ℕ
within lo size a = if leb lo a && ltb a (lo + size) then 1 else 0

-- The order that `fit_order` settles on.
record Fit (current remaining o : ℕ) : Type 0 where
  ge_min : min_order ≤ o
  le_max : o ≤ max_order
  fits : 2 ^ o ≤ remaining
  aligned : current % 2 ^ o ≡ 0

abbrev unfit : ℕ → ℕ → ℕ → Bool
unfit order current remaining = ltb remaining (2 ^ order) || not (current % 2 ^ order == 0)

fit :
    (order current remaining : ℕ)
    → min_order ≤ order
    → order ≤ max_order
    → unfit order current remaining ≡ false
    → Fit current remaining order
fit order current remaining le ge good = record {
  ge_min = le;
  le_max = ge;
  fits = ground arith;
  aligned = ground arith;
}

-- A page fits wherever there is room for one.
fit_last :
    (current remaining : ℕ)
    → page_size ≤ remaining
    → current % page_size ≡ 0
    → unfit 12 current remaining ≡ false
fit_last current remaining pages whole = ground arith

fit_order-Fit :
    (n order current remaining : ℕ)
    → suc n + 11 ≡ order
    → order ≤ max_order
    → page_size ≤ remaining
    → current % page_size ≡ 0
    → (o : ℕ) × (fit_order (suc n) order current remaining ≡ some o) × Fit current remaining o
unfolding fit_order
fit_order-Fit zero order current remaining e le pages whole =
    let last : order ≡ 12 = omega arith in
    let good : unfit order current remaining ≡ false =
      rw last (fit_last current remaining pages whole) in
    rw good (order, refl, fit order current remaining (omega arith) le good)
fit_order-Fit (suc n) order current remaining e le pages whole =
    elim (Bool-cases (unfit order current remaining)) [
      | inl bad ↦
          rw bad
            (fit_order-Fit n (order - 1) current remaining (omega arith) (omega arith) pages whole)
      | inr good ↦ rw good (order, refl, fit order current remaining (omega arith) le good)
    ]

whole_pages : (o : ℕ) → min_order ≤ o → o ≤ max_order → 2 ^ o ≡ 2 ^ o / page_size * page_size
whole_pages = by_order (λ o. 2 ^ o ≡ 2 ^ o / page_size * page_size) refl refl refl refl refl

-- A region of which no byte is free: page-aligned, not at 0, and inside the address space.
pub record Region (l : FreeLists) (current remaining : ℕ) : Type 0 where
  pub whole : current % page_size ≡ 0
  pub ne_null : current ≢ 0
  pub ends : current + remaining < 2 ^ 64
  pub apart : (a : ℕ) → cover l a + within current remaining a ≤ 1

-- One round of the loop: a block leaves the region for its list.
module _ {l : FreeLists} {current remaining o : ℕ} (r : Region l current remaining)
    (f : Fit current remaining o) where
  abbrev with_block : FreeLists
  with_block = replace o (current ∷ l o) l

  size : 2 ^ o ≡ 2 ^ o / page_size * page_size
  size = whole_pages o f.ge_min f.le_max

  block-Loose : Loose l o current
  block-Loose = record {
    block = record {
      place = current / 2 ^ o;
      aligned = omega (arith, mod-add-div' current (2 ^ o), f.aligned);
      ne_null = r.ne_null;
      ends = omega (arith, r.ends, f.fits);
    };
    apart = λ a. ground (arith, r.apart a, f.fits);
  }

  next_address : u64 (current + 2 ^ o) ≡ current + 2 ^ o
  next_address = omega (arith, r.ends, f.fits)

  round-bytes : (a : ℕ) → cover with_block a ≡ cover l a + inside o current a
  round-bytes a = cover-cons o current a l f.ge_min f.le_max

  rest-Region : Region with_block (current + 2 ^ o) (remaining - 2 ^ o)
  rest-Region = record {
    whole = omega (arith, r.whole, size);
    ne_null = omega (arith, r.ne_null);
    ends = omega (arith, r.ends, f.fits);
    apart = λ a. ground (arith, round-bytes a, r.apart a, f.fits);
  }

  round-Holds : {s : Buddy} → Holds s l → Holds (add_block o current s) with_block
  round-Holds h =
      let p = push-Holds block-Loose h f.ge_min f.le_max in
      record { chains = p.chains; blocks = p.blocks; apart = p.apart }

-- What a loop over free memory has done: `pages` pages, the bytes of which `bytes` tells, have
-- become free.
pub record Filled (s : Buddy) (l : FreeLists) (bytes : ℕ → ℕ) (pages : ℕ) (s' : Buddy)
    : Type 0 where
  pub lists : FreeLists
  pub holds : Holds s' lists
  pub covers : (a : ℕ) → cover lists a ≡ cover l a + bytes a
  pub managed : s'.buddy_total_managed_pages ≡ u64 (s.buddy_total_managed_pages + pages)
  pub used : s'.buddy_used_pages ≡ s.buddy_used_pages
  pub physical : s'.total_physical_pages ≡ s.total_physical_pages

module _ {l : FreeLists} {current remaining o : ℕ} (r : Region l current remaining)
    (f : Fit current remaining o) {s s' : Buddy}
    (small : s.buddy_total_managed_pages < 2 ^ 64) where
  round-Filled :
      Filled
        (add_block o current s)
        (with_block r f)
        (within (current + 2 ^ o) ((remaining - 2 ^ o) / page_size * page_size))
        ((remaining - 2 ^ o) / page_size)
        s'
      → Filled s l (within current (remaining / page_size * page_size)) (remaining / page_size) s'
  unfolding push
  round-Filled rest = record {
    lists = rest.lists;
    holds = rest.holds;
    covers = λ a. ground (arith, rest.covers a, round-bytes r f a, size r f, f.fits);
    managed = omega (arith, rest.managed, size r f, f.fits);
    used = rest.used;
    physical = rest.physical;
  }

pub add_region-Filled :
    (n current remaining : ℕ) {s : Buddy} {l : FreeLists}
    → Holds s l
    → Region l current remaining
    → remaining / page_size ≤ n
    → s.buddy_total_managed_pages < 2 ^ 64
    → Filled s l
        (within current (remaining / page_size * page_size))
        (remaining / page_size)
        (add_region n current remaining s)
unfolding add_region
add_region-Filled zero current remaining {s} {l} h r le small = record {
  lists = l;
  holds = h;
  covers = λ a. ground arith;
  managed = omega arith;
  used = refl;
  physical = refl;
}
add_region-Filled (suc n) current remaining {s} {l} h r le small =
    elim (Bool-cases (ltb remaining page_size)) [
      | inl short ↦ rw short (record {
        lists = l;
        holds = h;
        covers = λ a. ground arith;
        managed = ground arith;
        used = refl;
        physical = refl;
      })
      | inr long ↦
          let (o, found, f) =
            fit_order-Fit 4 max_order current remaining refl (omega arith) (ground arith) r.whole in
          let rest =
            add_region-Filled n (current + 2 ^ o) (remaining - 2 ^ o) (round-Holds r f h)
              (rest-Region r f) (omega (arith, size r f, f.fits, f.ge_min)) (omega arith) in
          rw (long, found, add_region, next_address r f) (round-Filled r f small rest)
    ]
