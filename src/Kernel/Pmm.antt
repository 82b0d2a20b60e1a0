-- ===== src/Kernel/Pmm.antt =====
-- The page bitmap of kernel/mem/pmm.cpp: `init_pmm`, `pmm_alloc_page`, `pmm_free_page` and the
-- counters. The bitmap lies in the memory that it manages, from the address `pmm_bitmap` on, so the
-- state holds the whole memory, byte by byte. An address is a number, `nullptr` is 0.
mod Bitmap
mod Alloc
mod Count
mod Passes
mod Init
mod Tests
use orionis_os.Base.{
  ℕ, zero, suc, ◌+◌, ◌-◌, ◌*◌, ◌/◌, ◌%◌, Bool, Option, none, some, List, [], ◌∷◌, ltb, leb, ◌==◌,
  ◌&&◌, if◌then◌else◌, u64, set_bit, clear_bit, test_bit, store,
}

abbrev pub page_size : ℕ
page_size = 4096

pub record Pmm : Type 0 where
  pub mem : ℕ → ℕ
  pub pmm_bitmap : ℕ
  pub total_pages : ℕ
  pub last_checked_page : ℕ

-- An entry of the stivale memory map; type 1 is usable memory.
pub record MmapEntry : Type 0 where
  pub base : ℕ
  pub length : ℕ
  pub type : ℕ

abbrev pub byte_of : Pmm → ℕ → ℕ
byte_of s page_index = s.pmm_bitmap + page_index / 8

pub pmm_bitmap_set : ℕ → Pmm → Pmm
pmm_bitmap_set i s = record s {
  mem = store s.mem (byte_of s i) (set_bit (s.mem (byte_of s i)) (i % 8));
}

pub pmm_bitmap_clear : ℕ → Pmm → Pmm
pmm_bitmap_clear i s = record s {
  mem = store s.mem (byte_of s i) (clear_bit (s.mem (byte_of s i)) (i % 8));
}

pub pmm_bitmap_test : ℕ → Pmm → Bool
pmm_bitmap_test i s = test_bit (s.mem (byte_of s i)) (i % 8)

-- What both loops of `pmm_alloc_page` do with the free page that they find.
pub claim : ℕ → Pmm → Pmm × ℕ
claim i s = (record (pmm_bitmap_set i s) { last_checked_page = i + 1 }, u64 (i * page_size))

-- One of the loops: `n` pages are left to look at, from page `i` on.
pub alloc_scan : ℕ → ℕ → Pmm → Option (Pmm × ℕ)
alloc_scan zero i s = none
alloc_scan (suc n) i s =
    let rest = alloc_scan n (i + 1) s in if pmm_bitmap_test i s then rest else some (claim i s)

pub pmm_alloc_page : Pmm → Pmm × ℕ
pmm_alloc_page s = elim (alloc_scan (s.total_pages - s.last_checked_page) s.last_checked_page s) [
  | some found ↦ found
  | none ↦ elim (alloc_scan s.last_checked_page 0 s) [ some found ↦ found | none ↦ (s, 0) ]
]

-- The cursor moves back to a page that is freed below it.
pub rewind : ℕ → Pmm → Pmm
rewind i s = if ltb i s.last_checked_page then record s { last_checked_page = i } else s

pub pmm_free_page : ℕ → Pmm → Pmm
unfolding rewind
pmm_free_page page s =
    if page == 0 then s else rewind (page / page_size) (pmm_bitmap_clear (page / page_size) s)

-- The loop of `pmm_get_used_pages`, with `n` pages left from page `i` on.
pub count_used : ℕ → ℕ → Pmm → ℕ → ℕ
count_used zero i s used = used
count_used (suc n) i s used =
    count_used n (i + 1) s (if pmm_bitmap_test i s then used + 1 else used)

pub pmm_get_used_pages : Pmm → ℕ
unfolding count_used
pmm_get_used_pages s = count_used s.total_pages 0 s 0

-- The loops of `init_pmm`, in their order.
pub highest_top : List MmapEntry → ℕ → ℕ
highest_top [] highest_addr = highest_addr
highest_top (e ∷ es) highest_addr = highest_top es (
    if e.type == 1 && ltb highest_addr (u64 (e.base + e.length))
    then u64 (e.base + e.length)
    else highest_addr)

pub bitmap_bytes : ℕ → ℕ
bitmap_bytes pages = if ltb (pages / 8 * 8) pages then pages / 8 + 1 else pages / 8

pub place_bitmap : List MmapEntry → ℕ → ℕ → ℕ
place_bitmap [] bitmap_size old = old
place_bitmap (e ∷ es) bitmap_size old =
    if e.type == 1 && leb bitmap_size e.length then e.base else place_bitmap es bitmap_size old

pub mark_all_used : ℕ → ℕ → Pmm → Pmm
mark_all_used zero i s = s
mark_all_used (suc n) i s =
    mark_all_used n (i + 1) (record s { mem = store s.mem (s.pmm_bitmap + i) 0xff })

pub clear_pages : ℕ → ℕ → Pmm → Pmm
clear_pages zero i s = s
clear_pages (suc n) i s = clear_pages n (i + 1) (pmm_bitmap_clear i s)

pub clear_usable : List MmapEntry → Pmm → Pmm
unfolding clear_pages
clear_usable [] s = s
clear_usable (e ∷ es) s =
    clear_usable es
      (if e.type == 1 then clear_pages (e.length / page_size) (e.base / page_size) s else s)

pub set_pages : ℕ → ℕ → Pmm → Pmm
set_pages zero i s = s
set_pages (suc n) i s = set_pages n (i + 1) (pmm_bitmap_set i s)

pub bitmap_pages : ℕ → ℕ
bitmap_pages bitmap_size =
    if bitmap_size % page_size == 0 then bitmap_size / page_size else bitmap_size / page_size + 1

-- The globals after the bitmap has its size and place, before it is written.
pub lay_out : List MmapEntry → Pmm → Pmm
unfolding highest_top bitmap_bytes place_bitmap
lay_out mmap s =
    let total = highest_top mmap 0 / page_size in
    record s {
      total_pages = total;
      pmm_bitmap = place_bitmap mmap (bitmap_bytes total) s.pmm_bitmap;
    }

pub write_bitmap : List MmapEntry → Pmm → Pmm
unfolding bitmap_bytes mark_all_used clear_usable set_pages bitmap_pages
write_bitmap mmap s =
    let bitmap_size = bitmap_bytes s.total_pages in
    set_pages (bitmap_pages bitmap_size) (s.pmm_bitmap / page_size)
      (clear_usable mmap (mark_all_used bitmap_size 0 s))

pub init_pmm : List MmapEntry → Pmm → Pmm
unfolding lay_out write_bitmap
init_pmm mmap s = write_bitmap mmap (lay_out mmap s)
