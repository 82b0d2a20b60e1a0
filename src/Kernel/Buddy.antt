-- ===== src/Kernel/Buddy.antt =====
-- The buddy allocator of kernel/mem/pmm.cpp: `get_order`, `get_buddy`, `buddy_init`, `buddy_alloc`,
-- `buddy_free` and the counters. A free block holds the pointer to the next one of its order in its
-- first word; blocks are at least a page apart, so the state keeps these words as a function of the
-- block's address. `nullptr` is 0. What is printed is left out.
mod Bits
mod Order
mod Lists
mod Alloc
mod Search
mod Free
mod Region
mod Init
mod RoundTrip
mod Tests
use orionis_os.Base.{
  ℕ, zero, suc, ◌+◌, ◌-◌, ◌*◌, ◌/◌, ◌%◌, ◌^◌, Bool, true, false, Option, none, some, List, [], ◌∷◌,
  ltb, ◌==◌, ◌&&◌, ◌||◌, not, if◌then◌else◌, u64, store,
}
use Prim.Native.Nat.{bit_xor}
use orionis_os.Kernel.Pmm.{MmapEntry, page_size}

abbrev pub min_order : ℕ
min_order = 12

abbrev pub max_order : ℕ
max_order = 16

pub record Buddy : Type 0 where
  pub next : ℕ → ℕ
  pub free_list : ℕ → ℕ
  pub total_physical_pages : ℕ
  pub buddy_used_pages : ℕ
  pub buddy_total_managed_pages : ℕ

pub buddy_get_total_pages : Buddy → ℕ
buddy_get_total_pages s = s.total_physical_pages

pub buddy_get_used_pages : Buddy → ℕ
buddy_get_used_pages s = s.buddy_used_pages

pub buddy_get_free_pages : Buddy → ℕ
buddy_get_free_pages s = u64 (s.buddy_total_managed_pages + 2 ^ 64 - s.buddy_used_pages)

-- `1 << order` on `int`, which is defined for orders below 31.
abbrev pub size_for_order : ℕ → ℕ
size_for_order order = 2 ^ order

-- The loop of `get_order`; `none` means that the fuel ran out.
pub order_loop : ℕ → ℕ → ℕ → ℕ → Option ℕ
order_loop zero order block_size size = none
order_loop (suc fuel) order block_size size =
    let rest = order_loop fuel (order + 1) (u64 (block_size * 2)) size in
    if ltb block_size size then rest else some order

-- 52 doublings take the block size from 2 ^ 12 to 0, where it stays.
pub get_order : ℕ → Option ℕ
get_order size = order_loop 53 min_order (2 ^ min_order) size

pub get_buddy : ℕ → ℕ → ℕ
get_buddy addr order = bit_xor addr (size_for_order order)

-- `block->next = free_list[i]; free_list[i] = block`, as every insertion is written.
pub push : ℕ → ℕ → Buddy → Buddy
push i block s = record s {
  next = store s.next block (s.free_list i);
  free_list = store s.free_list i block;
}

-- The `while (i > order)` loop of `buddy_alloc`, with `n` rounds left.
pub split : ℕ → ℕ → ℕ → Buddy → Buddy
split zero i block s = s
split (suc n) i block s =
    split n (i - 1) block (push (i - 1 - min_order) (u64 (block + size_for_order (i - 1))) s)

-- The body of its `for` loop, where the list of order `i` is not empty.
pub take_block : ℕ → ℕ → Buddy → Buddy × ℕ
take_block i order s =
    let block = s.free_list (i - min_order) in
    let popped = record s { free_list = store s.free_list (i - min_order) (s.next block) } in
    let s' = split (i - order) i block popped in
    (
      record s' { buddy_used_pages = u64 (s'.buddy_used_pages + size_for_order order / page_size) },
      block,
    )

-- The `for` loop, with `n` orders left from `i` on.
pub alloc_loop : ℕ → ℕ → ℕ → Buddy → Buddy × ℕ
alloc_loop zero i order s = (s, 0)
alloc_loop (suc n) i order s =
    let rest = alloc_loop n (i + 1) order s in
    if s.free_list (i - min_order) == 0 then rest else take_block i order s

pub buddy_alloc : ℕ → Buddy → Option (Buddy × ℕ)
buddy_alloc size s = elim (get_order size) [
  | none ↦ none
  | some order ↦ some (alloc_loop (max_order + 1 - order) order order s)
]

-- What the `MemoryBlock**` of `buddy_free` may point at.
pub data Slot : Type 0 where
  head : ℕ → Slot
  next_of : ℕ → Slot

pub read_slot : Slot → Buddy → ℕ
read_slot (head i) s = s.free_list i
read_slot (next_of p) s = s.next p

pub write_slot : Slot → ℕ → Buddy → Buddy
write_slot (head i) v s = record s { free_list = store s.free_list i v }
write_slot (next_of p) v s = record s { next = store s.next p v }

-- The search for the buddy; `none` means that the fuel ran out.
pub find_slot : ℕ → Slot → ℕ → Buddy → Option Slot
find_slot zero cur buddy s = none
find_slot (suc fuel) cur buddy s =
    let rest = find_slot fuel (next_of (read_slot cur s)) buddy s in
    if not (read_slot cur s == 0) && not (read_slot cur s == buddy) then rest else some cur

abbrev lower : ℕ → ℕ → ℕ
lower buddy addr = if ltb buddy addr then buddy else addr

-- The merging loop of `buddy_free`, with `n` orders below `max_order` left.
pub merge_loop : ℕ → ℕ → ℕ → ℕ → Buddy → Option Buddy
merge_loop fuel zero order addr s = some (push (max_order - min_order) addr s)
merge_loop fuel (suc n) order addr s =
    elim (find_slot fuel (head (order - min_order)) (get_buddy addr order) s) [
      | none ↦ none
      | some cur ↦
          let rest =
            merge_loop fuel n (order + 1) (lower (get_buddy addr order) addr)
              (write_slot cur (s.next (read_slot cur s)) s) in
          if read_slot cur s == get_buddy addr order
          then rest
          else some (push (order - min_order) addr s)
    ]

pub buddy_free : ℕ → ℕ → ℕ → Buddy → Option Buddy
buddy_free fuel addr size s = elim (get_order size) [
  | none ↦ none
  | some order ↦ merge_loop fuel (max_order - order) order addr (record s {
    buddy_used_pages = u64 (s.buddy_used_pages + 2 ^ 64 - size_for_order order / page_size);
  })
]

-- The largest order, from `order` down, whose blocks are no larger than what remains and start at
-- `current`; `none` below `min_order`. `n` counts the orders left.
pub fit_order : ℕ → ℕ → ℕ → ℕ → Option ℕ
fit_order zero order current remaining = none
fit_order (suc n) order current remaining =
    let rest = fit_order n (order - 1) current remaining in
    if ltb remaining (size_for_order order) || not (current % size_for_order order == 0)
    then rest
    else some order

abbrev add_block : ℕ → ℕ → Buddy → Buddy
add_block order block s = record (push (order - min_order) block s) {
  buddy_total_managed_pages = u64 (s.buddy_total_managed_pages + size_for_order order / page_size);
}

-- The inner `while` loop of `buddy_init`; a round uses up at least a page, so `remaining / page_size`
-- rounds are enough.
pub add_region : ℕ → ℕ → ℕ → Buddy → Buddy
add_region zero current remaining s = s
add_region (suc n) current remaining s =
    if ltb remaining page_size then s else elim (fit_order 5 max_order current remaining) [
      | none ↦ s
      | some order ↦
          add_region n (u64 (current + size_for_order order)) (remaining - size_for_order order)
            (add_block order current s)
    ]

pub add_regions : List MmapEntry → Buddy → Buddy
add_regions [] s = s
add_regions (e ∷ es) s =
    add_regions es (if e.type == 1 then add_region (e.length / page_size) e.base e.length s else s)

pub count_pages : List MmapEntry → ℕ → ℕ
count_pages [] pages = pages
count_pages (e ∷ es) pages =
    count_pages es (if e.type == 1 then u64 (pages + e.length / page_size) else pages)

pub buddy_init : List MmapEntry → Buddy → Buddy
buddy_init mmap s = add_regions mmap (record s {
  free_list = λ i. 0;
  total_physical_pages = count_pages mmap 0;
  buddy_used_pages = 0;
  buddy_total_managed_pages = 0;
})
