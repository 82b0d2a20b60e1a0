-- ===== src/Kernel/Pmm/Tests.antt =====
-- The page bitmap on a small memory, and its theorems there.
use orionis_os.Base.{
  suc, ◌<◌, ◌≡◌, ◌≢◌, refl, true, List, [], ◌∷◌, arith, not, ◌||◌, All, set_bit, clear_bit,
  test_bit, store,
}
use orionis_os.Kernel.Pmm.{
  Pmm, MmapEntry, pmm_bitmap_set, pmm_bitmap_clear, pmm_bitmap_test, claim, alloc_scan,
  pmm_alloc_page, pmm_free_page, count_used, pmm_get_used_pages, highest_top, bitmap_bytes,
  place_bitmap, mark_all_used, clear_pages, clear_usable, set_pages, bitmap_pages, lay_out,
  write_bitmap, init_pmm,
}
use orionis_os.Kernel.Pmm.Alloc.{
  IsValid, Allocated, pmm_alloc_page-Allocated, pmm_alloc_page-IsValid, pmm_free_page-IsValid,
  pmm_free_page-alloc_page,
}
use orionis_os.Kernel.Pmm.Count.{used_pages-alloc_page, used_pages-free_page}
use orionis_os.Kernel.Pmm.Passes.{Fits, in_usable, in_bitmap}
use orionis_os.Kernel.Pmm.Init.{init_pmm-test}

-- Ten pages, of which 0, 1 and 3 are in use; the search goes on at page 3.
abbrev ten : Pmm
ten = record {
  mem = store (λ a. 0) 0x9000 0b1011;
  pmm_bitmap = 0x9000;
  total_pages = 10;
  last_checked_page = 3;
}

ten-IsValid : IsValid ten
ten-IsValid = record { bytes = λ a. ground arith; cursor = omega arith; fits = omega arith }

next_page : (pmm_alloc_page ten).1 ≡ 0x4000
unfolding pmm_alloc_page alloc_scan claim pmm_bitmap_test test_bit
next_page = refl

next_page-ne : (pmm_alloc_page ten).1 ≢ 0
next_page-ne = rw next_page (omega arith)

three_used : pmm_get_used_pages ten ≡ 3
unfolding pmm_get_used_pages count_used pmm_bitmap_test test_bit
three_used = refl

page_three : pmm_bitmap_test 3 ten ≡ true
unfolding pmm_bitmap_test test_bit
page_three = refl

pmm_alloc_page-Allocated_example : Allocated ten (pmm_alloc_page ten)
pmm_alloc_page-Allocated_example = pmm_alloc_page-Allocated ten ten-IsValid

pmm_alloc_page-IsValid_example : IsValid (pmm_alloc_page ten).0
pmm_alloc_page-IsValid_example = pmm_alloc_page-IsValid ten ten-IsValid

pmm_free_page-IsValid_example : IsValid (pmm_free_page 0x3000 ten)
pmm_free_page-IsValid_example = pmm_free_page-IsValid ten ten-IsValid 0x3000

pmm_free_page-alloc_page_example :
    pmm_bitmap_test 4 (pmm_free_page (pmm_alloc_page ten).1 (pmm_alloc_page ten).0)
    ≡ pmm_bitmap_test 4 ten
pmm_free_page-alloc_page_example = pmm_free_page-alloc_page ten ten-IsValid next_page-ne 4

used_pages-alloc_page_run :
    (pmm_get_used_pages (pmm_alloc_page ten).0 ≡ suc (pmm_get_used_pages ten))
    × (pmm_get_used_pages ten < 10)
used_pages-alloc_page_run = used_pages-alloc_page ten ten-IsValid next_page-ne

used_pages-free_page_run :
    pmm_get_used_pages ten ≡ suc (pmm_get_used_pages (pmm_free_page 0x3000 ten))
used_pages-free_page_run =
    used_pages-free_page ten 0x3000 ten-IsValid (omega arith) (omega arith) page_three

-- Eight usable pages at 64 KiB, behind a reserved entry.
abbrev mmap : List MmapEntry
mmap =
    record { base = 0; length = 0x10000; type = 2 }
    ∷ record { base = 0x10000; length = 0x8000; type = 1 }
    ∷ []

abbrev blank : Pmm
blank = record { mem = λ a. 0; pmm_bitmap = 0; total_pages = 0; last_checked_page = 0 }

mmap-Fits : All Fits mmap
mmap-Fits = omega arith

-- The first usable page holds the bitmap; the next one is handed out first.
after_init :
    ((pmm_alloc_page (init_pmm mmap blank)).1 ≡ 0x11000)
    × (pmm_get_used_pages (init_pmm mmap blank) ≡ 17)
unfolding pmm_alloc_page alloc_scan claim pmm_bitmap_test test_bit init_pmm lay_out highest_top
    bitmap_bytes place_bitmap write_bitmap mark_all_used clear_usable clear_pages pmm_bitmap_clear
    clear_bit set_pages pmm_bitmap_set set_bit bitmap_pages pmm_get_used_pages count_used
after_init = (refl, refl)

seventeen : 17 < (init_pmm mmap blank).total_pages
unfolding init_pmm lay_out highest_top bitmap_bytes place_bitmap write_bitmap mark_all_used
    clear_usable clear_pages pmm_bitmap_clear clear_bit set_pages pmm_bitmap_set set_bit
    bitmap_pages
seventeen = omega arith

init_pmm-test_run :
    pmm_bitmap_test 17 (init_pmm mmap blank)
    ≡ (in_bitmap 17 (init_pmm mmap blank) || not (in_usable 17 mmap))
init_pmm-test_run = init_pmm-test mmap blank 17 (λ a. omega arith) mmap-Fits seventeen
