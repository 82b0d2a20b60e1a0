-- ===== src/Kernel/Buddy/Init.antt =====
-- `buddy_init`: the free lists hold exactly the whole pages of the usable entries.
use orionis_os.Base.{
  ℕ, ◌+◌, ◌*◌, ◌/◌, ◌%◌, ◌^◌, ◌≤◌, ◌<◌, ◌≡◌, ◌≢◌, refl, ◌∙◌, true, false, List, [], ◌∷◌, arith,
  ◌==◌, if◌then◌else◌, u64, All, Bool-cases, inl, inr,
}
use orionis_os.Kernel.Pmm.{MmapEntry, page_size}
use orionis_os.Kernel.Buddy.{Buddy, add_regions, count_pages, buddy_init}
use orionis_os.Kernel.Buddy.Lists.{FreeLists, hits, cover, cover_below, Holds}
use orionis_os.Kernel.Buddy.Region.{within, Region, Filled, add_region-Filled}

-- How many usable entries hold byte `a`.
unfoldable pub usable_hits : List MmapEntry → ℕ → ℕ
usable_hits [] a = 0
usable_hits (e ∷ es) a = (if e.type == 1 then within e.base e.length a else 0) + usable_hits es a

-- How many usable entries hold byte `a` in a whole page.
pub page_hits : List MmapEntry → ℕ → ℕ
page_hits [] a = 0
page_hits (e ∷ es) a =
    (if e.type == 1 then within e.base (e.length / page_size * page_size) a else 0) + page_hits es a

pub usable_pages : List MmapEntry → ℕ
usable_pages [] = 0
usable_pages (e ∷ es) = (if e.type == 1 then e.length / page_size else 0) + usable_pages es

-- A usable entry starts at a page other than the first one and ends inside the address space.
abbrev pub IsSound : MmapEntry → Type 0
IsSound e =
    if e.type == 1
    then (e.base % page_size ≡ 0) × (e.base ≢ 0) × (e.base + e.length < 2 ^ 64)
    else Unit

module _ (e : MmapEntry) (es : List MmapEntry) (usable : (e.type == 1) ≡ true) where
  entry-Region :
      (l : FreeLists)
      → IsSound e
      → ((a : ℕ) → cover l a + usable_hits (e ∷ es) a ≤ 1)
      → Region l e.base e.length
  unfolding usable_hits
  entry-Region l sound apart =
      let (whole, ne, ends) = rw usable at sound in
      record {
        whole = whole;
        ne_null = ne;
        ends = ends;
        apart = λ a. ground (arith, apart a, usable);
      }

  -- The first entry and the others together.
  entry-Filled :
      {s s' s'' : Buddy} {l : FreeLists}
      → (first : Filled s l
          (within e.base (e.length / page_size * page_size))
          (e.length / page_size)
          s')
      → Filled s' first.lists (page_hits es) (usable_pages es) s''
      → Filled s l (page_hits (e ∷ es)) (usable_pages (e ∷ es)) s''
  unfolding page_hits usable_pages
  entry-Filled first rest = record {
    lists = rest.lists;
    holds = rest.holds;
    covers = λ a. ground (arith, rest.covers a, first.covers a, usable);
    managed = ground (arith, rest.managed, first.managed, usable);
    used = rest.used ∙ first.used;
    physical = rest.physical ∙ first.physical;
  }

  entry-apart :
      {s s' : Buddy} {l : FreeLists}
      → (first : Filled s l
          (within e.base (e.length / page_size * page_size))
          (e.length / page_size)
          s')
      → ((a : ℕ) → cover l a + usable_hits (e ∷ es) a ≤ 1)
      → (a : ℕ) → cover first.lists a + usable_hits es a ≤ 1
  unfolding usable_hits
  entry-apart first apart a = ground (arith, apart a, first.covers a, usable)

module _ (e : MmapEntry) (es : List MmapEntry) (other : (e.type == 1) ≡ false) where
  skip-Filled :
      {s s' : Buddy} {l : FreeLists}
      → Filled s l (page_hits es) (usable_pages es) s'
      → Filled s l (page_hits (e ∷ es)) (usable_pages (e ∷ es)) s'
  unfolding page_hits usable_pages
  skip-Filled rest = record {
    lists = rest.lists;
    holds = rest.holds;
    covers = λ a. ground (arith, rest.covers a, other);
    managed = ground (arith, rest.managed, other);
    used = rest.used;
    physical = rest.physical;
  }

  skip-hits : (a : ℕ) → usable_hits (e ∷ es) a ≡ usable_hits es a
  unfolding usable_hits
  skip-hits a = ground (arith, other)

add_regions-Filled :
    (es : List MmapEntry) {s : Buddy} {l : FreeLists}
    → Holds s l
    → All IsSound es
    → ((a : ℕ) → cover l a + usable_hits es a ≤ 1)
    → s.buddy_total_managed_pages < 2 ^ 64
    → Filled s l (page_hits es) (usable_pages es) (add_regions es s)
unfolding add_regions
add_regions-Filled [] {s} {l} h sound apart small =
    unfold page_hits usable_pages in
    record {
      lists = l;
      holds = h;
      covers = λ a. omega arith;
      managed = omega arith;
      used = refl;
      physical = refl;
    }
add_regions-Filled (e ∷ es) {s} {l} h sound apart small = elim (Bool-cases (e.type == 1)) [
  | inl usable ↦
      let first =
        add_region-Filled (e.length / page_size) e.base e.length h
          (entry-Region e es usable l sound.0 apart) (omega arith) small in
      let rest =
        add_regions-Filled es first.holds sound.1 (entry-apart e es usable first apart)
          (omega (arith, first.managed)) in
      rw usable (entry-Filled e es usable first rest)
  | inr other ↦ rw other (
      skip-Filled e es other (
        add_regions-Filled es h sound.1 (λ a. omega (arith, apart a, skip-hits e es other a))
          small))
]

count_pages-usable :
    (es : List MmapEntry) (pages : ℕ)
    → count_pages es pages % 2 ^ 64 ≡ u64 (pages + usable_pages es)
unfolding count_pages usable_pages
count_pages-usable [] pages = omega arith
count_pages-usable (e ∷ es) pages = ground (
  arith,
  count_pages-usable es (if e.type == 1 then u64 (pages + e.length / page_size) else pages),
)

count_pages-lt : (es : List MmapEntry) (pages : ℕ) → pages < 2 ^ 64 → count_pages es pages < 2 ^ 64
unfolding count_pages
count_pages-lt [] pages h = h
count_pages-lt (e ∷ es) pages h =
    ground
      (arith, count_pages-lt es (if e.type == 1 then u64 (pages + e.length / page_size) else pages))

abbrev pub no_lists : FreeLists
no_lists o = []

pub cover-no_lists : (a : ℕ) → cover no_lists a ≡ 0
unfolding cover_below hits
cover-no_lists a = refl

-- The state from which `buddy_init` fills the lists.
abbrev pub reset : List MmapEntry → Buddy → Buddy
reset mmap s = record s {
  free_list = λ i. 0;
  total_physical_pages = count_pages mmap 0;
  buddy_used_pages = 0;
  buddy_total_managed_pages = 0;
}

pub reset-Holds : (mmap : List MmapEntry) (s : Buddy) → Holds (reset mmap s) no_lists
reset-Holds mmap s = record {
  chains = λ o le ge. refl;
  blocks = λ o le ge. tt;
  apart = λ a. omega (arith, cover-no_lists a);
}

-- From a memory map whose usable entries start at a page other than the first, end inside the
-- address space and have no byte in common, `buddy_init` makes free lists of aligned blocks that
-- overlap nowhere and cover exactly the whole pages of the usable entries. No page counts as used,
-- and both totals are the number of these pages modulo 2 ^ 64.
pub buddy_init-Holds :
    (mmap : List MmapEntry) (s : Buddy)
    → All IsSound mmap
    → ((a : ℕ) → usable_hits mmap a ≤ 1)
    → (l : FreeLists) × Holds (buddy_init mmap s) l
      × ((a : ℕ) → cover l a ≡ page_hits mmap a)
      × ((buddy_init mmap s).buddy_used_pages ≡ 0)
      × ((buddy_init mmap s).buddy_total_managed_pages ≡ u64 (usable_pages mmap))
      × ((buddy_init mmap s).total_physical_pages ≡ u64 (usable_pages mmap))
unfolding buddy_init
buddy_init-Holds mmap s sound apart =
    let f =
      add_regions-Filled mmap (reset-Holds mmap s) sound
        (λ a. omega (arith, apart a, cover-no_lists a)) (omega arith) in
    (
      f.lists,
      f.holds,
      (λ a. omega (arith, f.covers a, cover-no_lists a)),
      f.used,
      omega (arith, f.managed),
      omega (arith, f.physical, count_pages-usable mmap 0, count_pages-lt mmap 0 (omega arith)),
    )
