-- ===== src/Kernel/Buddy/Tests.antt =====
-- The buddy allocator on a small memory map, and its theorems there.
use orionis_os.Base.{
  ℕ, ◌+◌, ◌^◌, ◌≤◌, ◌<◌, ◌≡◌, refl, Option, some, none, List, [], ◌∷◌, arith, u64, All, ◌-◌, ◌/◌,
}
use orionis_os.Kernel.Pmm.{MmapEntry, page_size}
use orionis_os.Kernel.Buddy.{
  Buddy, order_loop, get_order, push, split, take_block, alloc_loop, buddy_alloc, get_buddy,
  read_slot, write_slot, find_slot, merge_loop, buddy_free, fit_order, add_region, add_regions,
  count_pages, buddy_init, min_order,
}
use orionis_os.Kernel.Buddy.Order.{IsOrderOf, get_order-IsOrderOf, get_order_diverges}
use orionis_os.Kernel.Buddy.Lists.{FreeLists, Holds, Loose, cover, inside}
use orionis_os.Kernel.Buddy.Alloc.{Allocated, buddy_alloc-Allocated}
use orionis_os.Kernel.Buddy.Free.{buddy_free-Released}
use orionis_os.Kernel.Buddy.Init.{
  IsSound, no_lists, cover-no_lists, reset, reset-Holds, usable_hits, page_hits, usable_pages,
  buddy_init-Holds,
}
use orionis_os.Kernel.Buddy.RoundTrip.{Restored, buddy_free-alloc}

-- 96 KiB of usable memory at 1 MiB, and a reserved entry.
abbrev mmap : List MmapEntry
mmap =
    record { base = 0x100000; length = 0x18000; type = 1 }
    ∷ record { base = 0xf0000; length = 0x10000; type = 2 }
    ∷ []

abbrev blank : Buddy
blank = record {
  next = λ p. 0;
  free_list = λ i. 7;
  total_physical_pages = 0;
  buddy_used_pages = 3;
  buddy_total_managed_pages = 5;
}

abbrev start : Buddy
start = buddy_init mmap blank

start_lists :
    (start.free_list 4 ≡ 0x100000)
    × (start.free_list 3 ≡ 0x110000)
    × (start.free_list 0 ≡ 0)
    × (start.buddy_total_managed_pages ≡ 24)
unfolding buddy_init add_regions add_region fit_order push count_pages
start_lists = (refl, refl, refl, refl)

address : Option (Buddy × ℕ) → ℕ
address none = 0
address (some r) = r.1

-- A request for 5000 bytes splits the block of 32 KiB.
first_request : address (buddy_alloc 5000 start) ≡ 0x110000
unfolding address buddy_alloc get_order order_loop alloc_loop take_block split push buddy_init
    add_regions add_region fit_order count_pages
first_request = refl

heads : Option Buddy → List ℕ
heads none = []
heads (some s) = s.free_list 0 ∷ s.free_list 1 ∷ s.free_list 2 ∷ s.free_list 3 ∷ s.free_list 4 ∷ []

free_after : Option (Buddy × ℕ) → Option Buddy
free_after none = none
free_after (some r) = buddy_free 3 r.1 5000 r.0

-- Giving it back merges the pieces to the block of 32 KiB.
merged : heads (free_after (buddy_alloc 5000 start)) ≡ 0 ∷ 0 ∷ 0 ∷ 0x110000 ∷ 0x100000 ∷ []
unfolding heads free_after buddy_free merge_loop find_slot read_slot write_slot get_buddy
    buddy_alloc get_order order_loop alloc_loop take_block split push buddy_init add_regions
    add_region fit_order count_pages
merged = refl

mmap-apart : (a : ℕ) → usable_hits mmap a ≤ 1
unfolding usable_hits
mmap-apart a = ground arith

mmap-IsSound : All IsSound mmap
mmap-IsSound = ((refl, omega arith, omega arith), (tt, tt))

buddy_init-Holds_example :
    (l : FreeLists) × Holds start l
    × ((a : ℕ) → cover l a ≡ page_hits mmap a)
    × (start.buddy_used_pages ≡ 0)
    × (start.buddy_total_managed_pages ≡ u64 (usable_pages mmap))
    × (start.total_physical_pages ≡ u64 (usable_pages mmap))
buddy_init-Holds_example = buddy_init-Holds mmap blank mmap-IsSound mmap-apart

abbrev start_free : FreeLists
start_free = (buddy_init-Holds mmap blank mmap-IsSound mmap-apart).0

start-Holds : Holds start start_free
start-Holds = (buddy_init-Holds mmap blank mmap-IsSound mmap-apart).1

get_order-IsOrderOf_example : (o : ℕ) × (get_order 5000 ≡ some o) × IsOrderOf 5000 o
get_order-IsOrderOf_example = get_order-IsOrderOf 5000 (omega arith)

get_order_diverges_example : order_loop 1000 min_order (2 ^ min_order) 0xffff_ffff_ffff_ffff ≡ none
get_order_diverges_example = get_order_diverges 1000 0xffff_ffff_ffff_ffff (omega arith)

buddy_alloc-Allocated_example :
    (o : ℕ) × (r : Buddy × ℕ) × (get_order 5000 ≡ some o)
    × IsOrderOf 5000 o
    × (buddy_alloc 5000 start ≡ some r)
    × Allocated start start_free o r
buddy_alloc-Allocated_example =
    buddy_alloc-Allocated 5000 start start_free start-Holds (omega arith)

-- What the first request returns.
abbrev first : Buddy × ℕ
first = alloc_loop 4 13 13 start

first-eq : buddy_alloc 5000 start ≡ some first
unfolding buddy_alloc get_order order_loop
first-eq = refl

first_high : 2 ^ 16 ≤ first.1
unfolding alloc_loop take_block split push buddy_init add_regions add_region fit_order count_pages
first_high = omega arith

start_used : start.buddy_used_pages < 2 ^ 64
unfolding push buddy_init add_regions add_region fit_order count_pages
start_used = omega arith

buddy_free-alloc_example : (fuel : ℕ) × Restored fuel 5000 start start_free first
buddy_free-alloc_example =
    buddy_free-alloc 5000 start start_free first start-Holds (omega arith) start_used first-eq
      first_high

-- An allocator with nothing free, and a page that it may be given.
abbrev nothing_free : Buddy
nothing_free = reset [] blank

page-Loose : Loose no_lists 12 0x110000
page-Loose = record {
  block = record { place = 0x110; aligned = refl; ne_null = omega arith; ends = omega arith };
  apart = λ a. ground (arith, cover-no_lists a);
}

page_order : get_order 4096 ≡ some 12
unfolding get_order order_loop
page_order = refl

buddy_free-Released_example :
    (s' : Buddy) × (buddy_free 1 0x110000 4096 nothing_free ≡ some s')
    × (l' : FreeLists) × Holds s' l'
    × ((a : ℕ) → cover l' a ≡ cover no_lists a + inside 12 0x110000 a)
    × (s'.buddy_used_pages ≡ u64 (0 + 2 ^ 64 - 2 ^ 12 / page_size))
    × (s'.buddy_total_managed_pages ≡ 0)
buddy_free-Released_example =
    buddy_free-Released 1 0x110000 4096 12 nothing_free no_lists (reset-Holds [] blank) page_order
      (omega arith) (omega arith) page-Loose (λ o le ge. omega arith) (omega arith)
