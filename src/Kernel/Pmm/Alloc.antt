-- ===== src/Kernel/Pmm/Alloc.antt =====
-- `pmm_alloc_page` and `pmm_free_page`: which page is taken, what stays, and the round trip.
use orionis_os.Base.{
  ℕ, zero, suc, ◌+◌, ◌-◌, ◌*◌, ◌/◌, ◌^◌, ◌≤◌, ◌<◌, ◌≡◌, refl, ◌≢◌, inl, inr, true, false, Option,
  none, some, arith, ltb, ◌==◌, if◌then◌else◌, Bool-cases, IsBytes,
}
use orionis_os.Kernel.Pmm.{
  Pmm, page_size, pmm_bitmap_set, pmm_bitmap_clear, pmm_bitmap_test, claim, alloc_scan,
  pmm_alloc_page, rewind, pmm_free_page,
}
use orionis_os.Kernel.Pmm.Bitmap.{
  pmm_bitmap_test-set, pmm_bitmap_test-clear, pmm_bitmap_set-IsBytes, pmm_bitmap_clear-IsBytes,
}

-- Every page that the bitmap covers has an address of 64 bits, and the cursor is in range.
pub record IsValid (s : Pmm) : Type 0 where
  pub bytes : IsBytes s.mem
  pub cursor : s.last_checked_page ≤ s.total_pages
  pub fits : s.total_pages ≤ 2 ^ 52

-- Page `j` was free in `s` and is what `r` hands out; no other page changes.
pub record Claimed (s : Pmm) (r : Pmm × ℕ) (j : ℕ) : Type 0 where
  pub in_range : j < s.total_pages
  pub was_free : pmm_bitmap_test j s ≡ false
  pub address : r.1 ≡ j * page_size
  pub marked : (i : ℕ) → pmm_bitmap_test i r.0 ≡ (if i == j then true else pmm_bitmap_test i s)
  pub cursor : r.0.last_checked_page ≡ j + 1
  pub same_total : r.0.total_pages ≡ s.total_pages
  pub same_place : r.0.pmm_bitmap ≡ s.pmm_bitmap
  pub bytes : IsBytes r.0.mem

claim-Claimed :
    (j : ℕ) (s : Pmm)
    → IsValid s
    → j < s.total_pages
    → pmm_bitmap_test j s ≡ false
    → Claimed s (claim j s) j
unfolding claim pmm_bitmap_set pmm_bitmap_test
claim-Claimed j s v lt free = record {
  in_range = lt;
  was_free = free;
  address = omega arith;
  marked = λ i. pmm_bitmap_test-set j i s v.bytes;
  cursor = refl;
  same_total = refl;
  same_place = refl;
  bytes = pmm_bitmap_set-IsBytes j s v.bytes;
}

-- Every page from `lo` to `hi` is in use.
abbrev pub AllUsed : Pmm → ℕ → ℕ → Type 0
AllUsed s lo hi = (i : ℕ) → lo ≤ i → i < hi → pmm_bitmap_test i s ≡ true

-- A scan hands out the first free page of its range, or finds none.
data Scanned (s : Pmm) (lo hi : ℕ) : Option (Pmm × ℕ) → Type 0 where
  found : {r : Pmm × ℕ} (j : ℕ) → lo ≤ j → AllUsed s lo j → Claimed s r j → Scanned s lo hi (some r)
  full : AllUsed s lo hi → Scanned s lo hi none

AllUsed-cons :
    (s : Pmm) (lo hi : ℕ) → pmm_bitmap_test lo s ≡ true → AllUsed s (lo + 1) hi → AllUsed s lo hi
AllUsed-cons s lo hi used all i p q = ground (arith, all i)

Scanned-cons :
    {s : Pmm} {lo hi : ℕ} {o : Option (Pmm × ℕ)}
    → pmm_bitmap_test lo s ≡ true
    → Scanned s (lo + 1) hi o
    → Scanned s lo hi o
Scanned-cons {s} {lo} used (found j le before c) =
    found j (omega arith) (AllUsed-cons s lo j used before) c
Scanned-cons {s} {lo} {hi} used (full all) = full (AllUsed-cons s lo hi used all)

alloc_scan-Scanned :
    (n lo hi : ℕ) (s : Pmm)
    → IsValid s
    → lo + n ≡ hi
    → hi ≤ s.total_pages
    → Scanned s lo hi (alloc_scan n lo s)
unfolding alloc_scan
alloc_scan-Scanned zero lo hi s v e h = full (λ i p q. absurd (omega arith))
alloc_scan-Scanned (suc n) lo hi s v e h = elim (Bool-cases (pmm_bitmap_test lo s)) [
  | inl used ↦ rw used (Scanned-cons used (alloc_scan-Scanned n (lo + 1) hi s v (omega arith) h))
  | inr free ↦ rw free (
      found lo (omega arith) (λ i p q. absurd (omega arith))
        (claim-Claimed lo s v (omega arith) free))
]

-- Page `j` is the first free one from the cursor on, going round the end of the bitmap.
pub data NextFit (s : Pmm) (j : ℕ) : Type 0 where
  ahead : s.last_checked_page ≤ j → AllUsed s s.last_checked_page j → NextFit s j
  around : AllUsed s s.last_checked_page s.total_pages → AllUsed s 0 j → NextFit s j

-- What a call may return: the next free page, or a null pointer where every page is in use.
pub data Allocated (s : Pmm) (r : Pmm × ℕ) : Type 0 where
  fresh : (j : ℕ) → Claimed s r j → NextFit s j → Allocated s r
  exhausted : AllUsed s 0 s.total_pages → r ≡ (s, 0) → Allocated s r

AllUsed-join : (s : Pmm) (m hi : ℕ) → AllUsed s 0 m → AllUsed s m hi → AllUsed s 0 hi
AllUsed-join s m hi low high i p q = elim (Bool-cases (ltb i m)) [
  | inl below ↦ low i p (ground arith)
  | inr above ↦ high i (ground arith) q
]

second_scan :
    (s : Pmm) (o : Option (Pmm × ℕ))
    → AllUsed s s.last_checked_page s.total_pages
    → Scanned s 0 s.last_checked_page o
    → Allocated s (elim o [ some r ↦ r | none ↦ (s, 0) ])
second_scan s (some r) high (found j le before c) = fresh j c (around high before)
second_scan s none high (full low) =
    exhausted (AllUsed-join s s.last_checked_page s.total_pages low high) refl

first_scan :
    (s : Pmm) (o o' : Option (Pmm × ℕ))
    → Scanned s s.last_checked_page s.total_pages o
    → Scanned s 0 s.last_checked_page o'
    → Allocated s (elim o [ some r ↦ r | none ↦ elim o' [ some r ↦ r | none ↦ (s, 0) ] ])
first_scan s (some r) o' (found j le before c) sc = fresh j c (ahead le before)
first_scan s none o' (full all) sc = second_scan s o' all sc

-- From a valid state `pmm_alloc_page` returns the address of the first page at or after the cursor,
-- going round, whose bit is clear; it sets that bit, moves the cursor behind it and leaves all
-- other bits. If every bit is set it returns a null pointer and changes nothing.
pub pmm_alloc_page-Allocated : (s : Pmm) → IsValid s → Allocated s (pmm_alloc_page s)
unfolding pmm_alloc_page
pmm_alloc_page-Allocated s v =
    first_scan s _ _
      (alloc_scan-Scanned (s.total_pages - s.last_checked_page) s.last_checked_page s.total_pages s
        v (omega (arith, v.cursor)) (omega arith))
      (alloc_scan-Scanned s.last_checked_page 0 s.last_checked_page s v (omega arith) v.cursor)

Allocated-IsValid : {s : Pmm} (r : Pmm × ℕ) → IsValid s → Allocated s r → IsValid r.0
Allocated-IsValid r v (fresh j c near) = record {
  bytes = c.bytes;
  cursor = omega (arith, c.cursor, c.same_total, c.in_range);
  fits = omega (arith, c.same_total, v.fits);
}
Allocated-IsValid r v (exhausted all e) = rw e v

pub pmm_alloc_page-IsValid : (s : Pmm) → IsValid s → IsValid (pmm_alloc_page s).0
pmm_alloc_page-IsValid s v = Allocated-IsValid (pmm_alloc_page s) v (pmm_alloc_page-Allocated s v)

rewind-test : (i j : ℕ) (s : Pmm) → pmm_bitmap_test i (rewind j s) ≡ pmm_bitmap_test i s
unfolding rewind pmm_bitmap_test
rewind-test i j s = ground arith

rewind-IsValid : (j : ℕ) (s : Pmm) → IsValid s → IsValid (rewind j s)
unfolding rewind
rewind-IsValid j s v = elim (Bool-cases (ltb j s.last_checked_page)) [
  | inl below ↦
      rw below (record { bytes = v.bytes; cursor = ground (arith, v.cursor); fits = v.fits })
  | inr above ↦ rw above v
]

module _ (s : Pmm) (v : IsValid s) where
  cleared-IsValid : (j : ℕ) → IsValid (pmm_bitmap_clear j s)
  unfolding pmm_bitmap_clear
  cleared-IsValid j = record {
    bytes = pmm_bitmap_clear-IsBytes j s v.bytes;
    cursor = v.cursor;
    fits = v.fits;
  }

  pub pmm_free_page-test :
      (page i : ℕ)
      → page ≢ 0
      → pmm_bitmap_test i (pmm_free_page page s)
        ≡ (if i == page / page_size then false else pmm_bitmap_test i s)
  unfolding pmm_free_page
  pmm_free_page-test page i ne = ground (
    arith,
    rewind-test i (page / page_size) (pmm_bitmap_clear (page / page_size) s),
    pmm_bitmap_test-clear (page / page_size) i s v.bytes,
  )

  pub pmm_free_page-IsValid : (page : ℕ) → IsValid (pmm_free_page page s)
  unfolding pmm_free_page
  pmm_free_page-IsValid page = elim (Bool-cases (page == 0)) [
    | inl nothing ↦ rw nothing v
    | inr given ↦ rw given (rewind-IsValid _ _ (cleared-IsValid (page / page_size)))
  ]

Allocated-free :
    (s : Pmm) (r : Pmm × ℕ)
    → IsValid s
    → Allocated s r
    → r.1 ≢ 0
    → (i : ℕ) → pmm_bitmap_test i (pmm_free_page r.1 r.0) ≡ pmm_bitmap_test i s
Allocated-free s r v (fresh j c near) ne i = ground (
  arith,
  pmm_free_page-test r.0 (Allocated-IsValid r v (fresh j c near)) r.1 i,
  c.marked i,
  c.address,
  c.was_free,
)
Allocated-free s r v (exhausted all e) ne i = absurd (ne (rw e refl))

-- Freeing what `pmm_alloc_page` returned, when that is not a null pointer, gives back the bitmap
-- that stood before.
pub pmm_free_page-alloc_page :
    (s : Pmm)
    → IsValid s
    → (pmm_alloc_page s).1 ≢ 0
    → (i : ℕ)
    → pmm_bitmap_test i (pmm_free_page (pmm_alloc_page s).1 (pmm_alloc_page s).0)
      ≡ pmm_bitmap_test i s
pmm_free_page-alloc_page s v ne i =
    Allocated-free s (pmm_alloc_page s) v (pmm_alloc_page-Allocated s v) ne i
