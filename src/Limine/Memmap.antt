-- ===== src/Limine/Memmap.antt =====
-- The memory map of limine/stage2/mm/pmm.c: `align_entry`, `sanitise_entries`, `init_memmap`,
-- `memmap_alloc_range` and the allocator of high memory. The first `memmap_entries` entries of the
-- array `memmap` are a list, the padding word `unused` of an entry is left out, and `panic`, which
-- does not return, is an outcome, as is a run over the end of the array.
mod Align
mod Trim
pub mod Range
pub mod Refusal
pub mod Sort
mod Sorted
mod Tests
use orionis_os.Base.{
  ℕ, zero, suc, ◌+◌, ◌-◌, ◌*◌, ◌/◌, ◌%◌, ◌^◌, Bool, true, false, Option, none, some, List, [], ◌∷◌,
  ◌++◌, ltb, leb, ◌==◌, ◌&&◌, ◌||◌, not, if◌then◌else◌, u32, u64, length, get_or, set,
}

abbrev pub page_size : ℕ
page_size = 4096

abbrev pub memmap_base : ℕ
memmap_base = 0x100000

abbrev pub memmap_max_entries : ℕ
memmap_max_entries = 256

abbrev pub usable : ℕ
usable = 1

abbrev pub bootloader_reclaimable : ℕ
bootloader_reclaimable = 0x1000

-- An e820 entry.
pub record Entry : Type 0 where
  pub base : ℕ
  pub length : ℕ
  pub type : ℕ

abbrev pub no_entry : Entry
no_entry = record { base = 0; length = 0; type = 0 }

pub data Outcome {ℓ} (A : Type ℓ) : Type ℓ where
  done : A → Outcome A
  panic : Outcome A
  out_of_bounds : Outcome A

infixl 5 ◌>>=◌
abbrev pub ◌>>=◌ {ℓ κ} : {A : Type ℓ} {B : Type κ} → Outcome A → (A → Outcome B) → Outcome B
done a >>= f = f a
panic >>= f = panic
out_of_bounds >>= f = out_of_bounds

-- `ALIGN_UP` and `ALIGN_DOWN` to the page size on a `uint64_t`.
abbrev pub align_up : ℕ → ℕ
align_up x = u64 (u64 (x + (page_size - 1)) / page_size * page_size)

abbrev pub align_down : ℕ → ℕ
align_down x = x / page_size * page_size

-- The part of an entry above 1 MiB. `none` is the result -1.
pub above_base : ℕ → ℕ → Option (ℕ × ℕ)
above_base base length =
    if ltb base memmap_base
    then (if ltb memmap_base (u64 (base + length))
        then some (memmap_base, u64 (length + 2 ^ 64 - (memmap_base - base)))
        else none)
    else some (base, length)

-- The test `!length` of the source is on the pointer, so it never holds and is left out here.
pub align_entry : ℕ → ℕ → Option (ℕ × ℕ)
align_entry base length =
    if ltb length page_size
    then none
    else above_base (align_up base)
        (align_down (u64 (length + 2 ^ 64 - u64 (align_up base + 2 ^ 64 - base))))

abbrev pub top_of : Entry → ℕ
top_of e = u64 (e.base + e.length)

-- The point `x` lies in `[base, top)`.
abbrev pub between : ℕ → ℕ → ℕ → Bool
between base top x = leb base x && ltb x top

-- What the inner loop of `sanitise_entries` does to entry `e` for another entry `r`.
pub trim : Entry → Entry → Outcome Entry
trim e r =
    let base = e.base in
    let top = top_of e in
    let res_base = r.base in
    let res_top = top_of r in
    if between base top res_base && between base top res_top
    then panic
    else let top' : ℕ = if between base top res_base then res_base else top in
      let base' : ℕ = if between base top' res_top then res_top else base in
      done (record e { base = base'; length = u64 (top' + 2 ^ 64 - base') })

-- The inner loop: entry `i` is trimmed by each other entry, from `j` on, with `n` left.
pub trim_loop : ℕ → ℕ → ℕ → List Entry → Outcome (List Entry)
trim_loop zero j i es = done es
trim_loop (suc n) j i es =
    if j == i
    then trim_loop n (j + 1) i es
    else trim (get_or es i no_entry) (get_or es j no_entry) >>= λ e.
        trim_loop n (j + 1) i (set es i e)

-- "Eradicate from memmap".
abbrev pub erase : List Entry → ℕ → List Entry
erase [] i = []
erase (e ∷ es) zero = es
erase (e ∷ es) (suc i) = e ∷ erase es i

-- The outer loop from entry `i` on, with `n` entries left: a round either goes on to the next
-- entry or takes this one out.
pub sanitise_loop : ℕ → ℕ → List Entry → Outcome (List Entry)
sanitise_loop zero i es = done es
sanitise_loop (suc n) i es =
    if not ((get_or es i no_entry).type == usable)
    then sanitise_loop n (i + 1) es
    else trim_loop (length es) 0 i es >>= λ es'.
        let e = get_or es' i no_entry in
        if e.length == 0
        then sanitise_loop n i (erase es' i)
        else elim (align_entry e.base e.length) [
          | none ↦ sanitise_loop n i (erase es' i)
          | some (b, l) ↦ sanitise_loop n (i + 1) (set es' i (record e { base = b; length = l }))
        ]

-- The index of the smallest base from entry `i` on, with `n` entries left.
pub min_index : ℕ → ℕ → ℕ → ℕ → List Entry → ℕ
min_index zero i least at es = at
min_index (suc n) i least at es =
    let base = (get_or es i no_entry).base in
    min_index n (i + 1) (if ltb base least then base else least) (if ltb base least then i else at)
      es

pub swap : ℕ → ℕ → List Entry → List Entry
swap p q es = set (set es q (get_or es p no_entry)) p (get_or es q no_entry)

-- The selection sort, from position `p` on with `n` rounds left.
pub sort_loop : ℕ → ℕ → List Entry → List Entry
sort_loop zero p es = es
sort_loop (suc n) p es =
    sort_loop n (p + 1) (swap p (min_index (length es - p) p (get_or es p no_entry).base p es) es)

-- The entry behind entry `i` continues it, and both are reclaimable.
pub contiguous : Entry → Entry → Bool
contiguous e f =
    e.type == bootloader_reclaimable
    && (f.type == bootloader_reclaimable && f.base == u64 (e.base + e.length))

-- The merging loop from entry `i` on, with `n` pairs left; a merge looks at the same entry again.
pub merge_loop : ℕ → ℕ → List Entry → List Entry
merge_loop zero i es = es
merge_loop (suc n) i es =
    let e = get_or es i no_entry in
    let f = get_or es (i + 1) no_entry in
    let merged =
      merge_loop n i (erase (set es i (record e { length = u64 (e.length + f.length) })) (i + 1)) in
    let next = merge_loop n (i + 1) es in if contiguous e f then merged else next

-- If no entry is left, the bound `memmap_entries - 1` of the sorting loop wraps round and the loop
-- runs over the end of the array.
pub sanitise_entries : List Entry → Outcome (List Entry)
sanitise_entries es = sanitise_loop (length es) 0 es >>= λ es'.
    if length es' == 0
    then out_of_bounds
    else let sorted = sort_loop (length es' - 1) 0 es' in
      done (merge_loop (length sorted - 1) 0 sorted)

-- The loop of `init_memmap` over the entries of the BIOS.
pub copy_entries : List Entry → List Entry → Outcome (List Entry)
copy_entries [] memmap = done memmap
copy_entries (e ∷ e820) memmap =
    if length memmap == memmap_max_entries then panic else copy_entries e820 (memmap ++ e ∷ [])

pub init_memmap : List Entry → List Entry → Outcome (List Entry)
init_memmap e820 memmap = copy_entries e820 memmap >>= sanitise_entries

-- The range from `base` to `top` lies in the usable entry.
pub contains : Entry → ℕ → ℕ → Bool
contains e base top =
    e.type == usable && (between e.base (top_of e) base && (leb e.base top && leb top (top_of e)))

-- What `memmap_alloc_range` does once it has found entry `i`: the part below the range, `below`
-- bytes long, keeps its place; the part above it and the range itself go to the end of the map.
pub keep_below : ℕ → ℕ → List Entry → List Entry
keep_below i below es =
    if below == 0 then erase es i else set es i (record (get_or es i no_entry) { length = below })

pub add_above : ℕ → ℕ → List Entry → List Entry
add_above top above es =
    if above == 0 then es else es ++ record { base = top; length = above; type = usable } ∷ []

pub carve : ℕ → ℕ → ℕ → ℕ → List Entry → Outcome (List Entry)
carve i base size type es =
    let e = get_or es i no_entry in
    let top = u64 (base + size) in
    let rest = keep_below i (u64 (base + 2 ^ 64 - e.base)) es in
    let rest' = add_above top (u64 (top_of e + 2 ^ 64 - top)) rest in
    if leb memmap_max_entries (length rest) || leb memmap_max_entries (length rest')
    then panic
    else done (rest' ++ record { base = base; length = size; type = type } ∷ [])

-- Its loop, from entry `i` on with `n` entries left.
pub range_loop : ℕ → ℕ → ℕ → ℕ → ℕ → List Entry → Outcome (List Entry)
range_loop zero i base size type es = panic
range_loop (suc n) i base size type es =
    let rest = range_loop n (i + 1) base size type es in
    if contains (get_or es i no_entry) base (u64 (base + size))
    then carve i base size type es
    else rest

pub memmap_alloc_range : ℕ → ℕ → ℕ → List Entry → Outcome (List Entry)
memmap_alloc_range base size type es = range_loop (length es) 0 base size type es

-- The map together with the memory, of which an allocation is cleared.
pub record Store : Type 0 where
  pub memmap : List Entry
  pub mem : ℕ → ℕ

-- The comparison of words as `int64_t`.
abbrev pub signed_lt : ℕ → ℕ → Bool
signed_lt a b = ltb (u64 (a + 2 ^ 63)) (u64 (b + 2 ^ 63))

-- `ALIGN_DOWN(entry_top - count, alignment)` as an `int64_t`. Division rounds to 0, so below 0 the result is
-- minus the aligned distance.
abbrev pub alloc_base : ℕ → ℕ → ℕ → ℕ
alloc_base entry_top count alignment =
    let start = u64 (entry_top + 2 ^ 64 - count) in
    if ltb start (2 ^ 63)
    then start / alignment * alignment
    else u64 (2 ^ 64 - (2 ^ 64 - start) / alignment * alignment)

-- The tests by which the loop of `ext_mem_alloc_aligned_type` passes over an entry.
pub skips : Entry → ℕ → ℕ → Bool
skips e count alignment =
    not (e.type == usable)
    || (not (signed_lt e.base (2 ^ 32))
        || (not (signed_lt (top_of e) (2 ^ 32))
            || signed_lt (alloc_base (top_of e) count alignment) e.base))

unfoldable pub zero_fill : ℕ → ℕ → (ℕ → ℕ) → ℕ → ℕ
zero_fill base count mem a = if between base (base + count) a then 0 else mem a

pub take_top : Entry → ℕ → ℕ → ℕ → Store → Outcome (Store × ℕ)
take_top e count alignment type s =
    let base = alloc_base (top_of e) count alignment in
    memmap_alloc_range base (u64 (top_of e + 2 ^ 64 - base)) type s.memmap >>= λ es.
    sanitise_entries es >>= λ es'.
    done (record { memmap = es'; mem = zero_fill (u32 base) count s.mem }, u32 base)

-- The loop, from the last entry down, with `n` entries left.
pub ext_loop : ℕ → ℕ → ℕ → ℕ → Store → Outcome (Store × ℕ)
ext_loop zero count alignment type s = panic
ext_loop (suc n) count alignment type s =
    let rest = ext_loop n count alignment type s in
    if skips (get_or s.memmap n no_entry) count alignment
    then rest
    else take_top (get_or s.memmap n no_entry) count alignment type s

pub ext_mem_alloc_aligned_type : ℕ → ℕ → ℕ → Store → Outcome (Store × ℕ)
ext_mem_alloc_aligned_type count alignment type s =
    ext_loop (length s.memmap) count alignment type s

pub ext_mem_alloc_type : ℕ → ℕ → Store → Outcome (Store × ℕ)
ext_mem_alloc_type count type = ext_mem_alloc_aligned_type count 4 type

pub ext_mem_alloc : ℕ → Store → Outcome (Store × ℕ)
ext_mem_alloc count = ext_mem_alloc_type count bootloader_reclaimable

pub ext_mem_alloc_aligned : ℕ → ℕ → Store → Outcome (Store × ℕ)
ext_mem_alloc_aligned count alignment =
    ext_mem_alloc_aligned_type count alignment bootloader_reclaimable

pub get_memmap : List Entry → Outcome (List Entry × ℕ)
get_memmap es = sanitise_entries es >>= λ es'. done (es', length es')
