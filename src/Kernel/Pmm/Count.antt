-- ===== src/Kernel/Pmm/Count.antt =====
-- `pmm_get_used_pages` counts the set bits: an allocation adds one page, a release takes one away.
use orionis_os.Base.{
  ℕ, zero, suc, ◌+◌, ◌/◌, ◌≤◌, ◌<◌, ◌≡◌, refl, ◌≢◌, true, false, arith, ltb, leb, ◌==◌, ◌&&◌,
  if◌then◌else◌, sym,
}
use orionis_os.Kernel.Pmm.{
  Pmm, page_size, pmm_bitmap_test, pmm_bitmap_clear, rewind, pmm_alloc_page, pmm_free_page,
  count_used, pmm_get_used_pages,
}
use orionis_os.Kernel.Pmm.Alloc.{
  IsValid, Allocated, fresh, exhausted, pmm_alloc_page-Allocated, pmm_free_page-test,
}

-- `t` is `s` with page `j` marked as used.
abbrev Marked : Pmm → Pmm → ℕ → Type 0
Marked s t j = (i : ℕ) → pmm_bitmap_test i t ≡ (if i == j then true else pmm_bitmap_test i s)

-- The pages in use among the `n` from page `lo` on.
pub used_between : ℕ → ℕ → Pmm → ℕ
used_between zero lo s = 0
used_between (suc n) lo s = (if pmm_bitmap_test lo s then 1 else 0) + used_between n (lo + 1) s

count_used-add : (n lo u : ℕ) (s : Pmm) → count_used n lo s u ≡ u + used_between n lo s
unfolding count_used used_between
count_used-add zero lo u s = omega arith
count_used-add (suc n) lo u s =
    ground (arith, count_used-add n (lo + 1) (if pmm_bitmap_test lo s then u + 1 else u) s)

used_between-le : (n lo : ℕ) (s : Pmm) → used_between n lo s ≤ n
unfolding used_between
used_between-le zero lo s = omega arith
used_between-le (suc n) lo s = ground (arith, used_between-le n (lo + 1) s)

pub used_pages-between : (s : Pmm) → pmm_get_used_pages s ≡ used_between s.total_pages 0 s
unfolding pmm_get_used_pages
used_pages-between s = omega (arith, count_used-add s.total_pages 0 0 s)

used_pages-le : (s : Pmm) → pmm_get_used_pages s ≤ s.total_pages
used_pages-le s = rw used_pages-between (used_between-le s.total_pages 0 s)

module _ (j : ℕ) (s t : Pmm) (m : Marked s t j) (free : pmm_bitmap_test j s ≡ false) where
  used_between-Marked :
      (n lo : ℕ)
      → used_between n lo t ≡ used_between n lo s + (if leb lo j && ltb j (lo + n) then 1 else 0)
  unfolding used_between
  used_between-Marked zero lo = ground arith
  used_between-Marked (suc n) lo = ground (arith, m lo, free, used_between-Marked n (lo + 1))

  used_pages-Marked :
      j < s.total_pages
      → t.total_pages ≡ s.total_pages
      → pmm_get_used_pages t ≡ suc (pmm_get_used_pages s)
  used_pages-Marked lt e =
      rw (used_pages-between t, used_pages-between s, e)
        (ground (arith, used_between-Marked s.total_pages 0))

Allocated-used :
    (s : Pmm) (r : Pmm × ℕ)
    → Allocated s r
    → r.1 ≢ 0
    → (pmm_get_used_pages r.0 ≡ suc (pmm_get_used_pages s)) × (pmm_get_used_pages s < s.total_pages)
Allocated-used s r (fresh j c near) ne =
    let more = used_pages-Marked j s r.0 c.marked c.was_free c.in_range c.same_total in
    (more, omega (arith, more, used_pages-le r.0, c.same_total))
Allocated-used s r (exhausted all e) ne = absurd (ne (rw e refl))

free-total : (page : ℕ) (s : Pmm) → (pmm_free_page page s).total_pages ≡ s.total_pages
unfolding pmm_free_page rewind pmm_bitmap_clear
free-total page s = ground arith

-- A page that `pmm_alloc_page` hands out at an address other than 0 adds one to the count of
-- `pmm_get_used_pages`, which is at most the number of pages.
pub used_pages-alloc_page :
    (s : Pmm)
    → IsValid s
    → (pmm_alloc_page s).1 ≢ 0
    → (pmm_get_used_pages (pmm_alloc_page s).0 ≡ suc (pmm_get_used_pages s))
      × (pmm_get_used_pages s < s.total_pages)
used_pages-alloc_page s v ne = Allocated-used s (pmm_alloc_page s) (pmm_alloc_page-Allocated s v) ne

-- Freeing a page that is in use, at an address other than 0, takes one off the count.
pub used_pages-free_page :
    (s : Pmm) (page : ℕ)
    → IsValid s
    → page ≢ 0
    → page / page_size < s.total_pages
    → pmm_bitmap_test (page / page_size) s ≡ true
    → pmm_get_used_pages s ≡ suc (pmm_get_used_pages (pmm_free_page page s))
used_pages-free_page s page v ne lt used =
    used_pages-Marked (page / page_size) (pmm_free_page page s) s
      (λ i. ground (arith, pmm_free_page-test s v page i ne, used))
      (ground (arith, pmm_free_page-test s v page (page / page_size) ne)) (rw free-total lt)
      (sym (free-total page s))
