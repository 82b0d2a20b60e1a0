-- ===== src/Kernel/Pmm/Init.antt =====
-- `init_pmm`: which pages it leaves free, and where it puts the bitmap.
use orionis_os.Base.{ℕ, ◌/◌, ◌≤◌, ◌<◌, ◌≡◌, not, arith, ◌||◌, List, [], ◌∷◌, All, IsBytes}
use orionis_os.Kernel.Pmm.{
  Pmm, MmapEntry, page_size, pmm_bitmap_test, bitmap_bytes, mark_all_used, clear_usable,
  bitmap_pages, lay_out, write_bitmap, init_pmm,
}
use orionis_os.Kernel.Pmm.Passes.{
  Fits, in_usable, in_bitmap, SameFrame, SameFrame-trans, mark_all_used-SameFrame,
  mark_all_used-test, clear_usable-SameFrame, clear_usable-test, set_pages-SameFrame,
  set_pages-test,
}

bitmap_bytes-covers : (j total : ℕ) → j < total → j / 8 < bitmap_bytes total
unfolding bitmap_bytes
bitmap_bytes-covers j total lt = ground arith

module _ (es : List MmapEntry) (s : Pmm) (b : IsBytes s.mem) where
  write_bitmap-test :
      (j : ℕ)
      → j < s.total_pages
      → pmm_bitmap_test j (write_bitmap es s) ≡ (in_bitmap j s || not (in_usable j es))
  unfolding write_bitmap in_bitmap
  write_bitmap-test j lt = ground (
    arith,
    mark_all_used-test (bitmap_bytes s.total_pages) j s (bitmap_bytes-covers j s.total_pages lt),
    clear_usable-test es j (mark_all_used (bitmap_bytes s.total_pages) 0 s)
        ((mark_all_used-SameFrame (bitmap_bytes s.total_pages) 0 s).bytes b),
    set_pages-test (bitmap_pages (bitmap_bytes s.total_pages)) (s.pmm_bitmap / page_size) j
        (clear_usable es (mark_all_used (bitmap_bytes s.total_pages) 0 s))
        ((clear_usable-SameFrame es _).bytes
          ((mark_all_used-SameFrame (bitmap_bytes s.total_pages) 0 s).bytes b)),
  )

  write_bitmap-SameFrame : SameFrame s (write_bitmap es s)
  unfolding write_bitmap
  write_bitmap-SameFrame =
      SameFrame-trans (mark_all_used-SameFrame (bitmap_bytes s.total_pages) 0 s) (
        SameFrame-trans (clear_usable-SameFrame es _) (
          set_pages-SameFrame (bitmap_pages (bitmap_bytes s.total_pages)) (s.pmm_bitmap / page_size)
            _))

-- The address of a usable entry that has room for `size` bytes.
pub data Placed (size old : ℕ) : List MmapEntry → ℕ → Type 0 where
  here :
      {e : MmapEntry} {es : List MmapEntry} {at : ℕ}
      → at ≡ e.base
      → e.type ≡ 1
      → size ≤ e.length
      → Placed size old (e ∷ es) at
  there :
      {e : MmapEntry} {es : List MmapEntry} {at : ℕ}
      → (e.type ≡ 1 → e.length < size)
      → Placed size old es at
      → Placed size old (e ∷ es) at
  nowhere : {at : ℕ} → at ≡ old → Placed size old [] at

module _ (mmap : List MmapEntry) (s : Pmm) where
  init_pmm-SameFrame : IsBytes s.mem → SameFrame (lay_out mmap s) (init_pmm mmap s)
  unfolding init_pmm
  init_pmm-SameFrame b = write_bitmap-SameFrame mmap (lay_out mmap s) b

in_bitmap-SameFrame : (i : ℕ) {s t : Pmm} → SameFrame s t → in_bitmap i t ≡ in_bitmap i s
unfolding in_bitmap
in_bitmap-SameFrame i same = rw (same.bitmap, same.total)

-- After `init_pmm`, over entries that end inside the address space, a page below `total_pages` is in
-- use exactly if it holds a part of the bitmap or is no whole page of a usable entry.
pub init_pmm-test :
    (mmap : List MmapEntry) (s : Pmm) (i : ℕ)
    → IsBytes s.mem
    → All Fits mmap
    → i < (init_pmm mmap s).total_pages
    → pmm_bitmap_test i (init_pmm mmap s)
      ≡ (in_bitmap i (init_pmm mmap s) || not (in_usable i mmap))
init_pmm-test mmap s i bytes fits lt =
    let same = init_pmm-SameFrame mmap s bytes in
    rw (in_bitmap-SameFrame i same)
      (unfold init_pmm in write_bitmap-test mmap (lay_out mmap s) bytes i (rw same.total at lt))
