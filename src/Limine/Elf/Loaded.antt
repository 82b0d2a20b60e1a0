-- ===== src/Limine/Elf/Loaded.antt =====
-- `elf64_load` over all program headers.
use orionis_os.Base.{
  Bool, ℕ, zero, suc, ◌+◌, ◌≤◌, ◌<◌, ◌≡◌, ◌≢◌, ◌⊎◌, ◌∙◌, inl, inr, refl, arith, true, false,
  Bool-cases, Option, none, some, List, [], ◌∷◌, All, ltb, ◌==◌, u32, u64, subst,
}
use orionis_os.Limine.Elf.{field, is_elf, arch_x86_64, et_dyn, elf64_apply_relocations}
use orionis_os.Limine.Elf.Load.{
  Phdr, phdr64, pt_load, max, load_address, relocated, load_segment64, next_segment,
  load_segments64, with_entry, elf64_load,
}
use orionis_os.Limine.Elf.Segments.{
  Segment, segment_of, Holds, Fits, IsLoaded, filled, filled-IsLoaded, filled-outside,
}
use orionis_os.Limine.Memmap.Range.{Ends, memmap_alloc_range-Ends}
use orionis_os.Limine.Memmap.Refusal.{NoRoom, memmap_alloc_range-NoRoom}
use orionis_os.Limine.Memmap.{
  Entry, Outcome, done, panic, out_of_bounds, ◌>>=◌, Store, memmap_alloc_range,
}

abbrev pub cons_if : Bool → Segment → List Segment → List Segment
cons_if true x xs = x ∷ xs
cons_if false x xs = xs

-- The segments of the program headers from number `i` on, `n` of them.
abbrev pub segments : ℕ → (ℕ → ℕ) → ℕ → ℕ → List Segment
segments slide file zero i = []
segments slide file (suc n) i =
    cons_if ((phdr64 file i).type == pt_load) (segment_of slide (phdr64 file i))
      (segments slide file n (i + 1))

abbrev pub Apart : Segment → Segment → Type 0
Apart x y = (x.base + x.memsz ≤ y.base) ⊎ (y.base + y.memsz ≤ x.base)

abbrev pub AllApart : List Segment → Type 0
AllApart [] = Unit
AllApart (x ∷ xs) = All (Apart x) xs × AllApart xs

-- The memory map after every segment has been taken out of it, one after the other.
abbrev pub Reserved : ℕ → List Segment → List Entry → List Entry → Type 0
Reserved type [] map map' = map' ≡ map
Reserved type (x ∷ xs) map map' =
    (map1 : List Entry) × (memmap_alloc_range x.base x.memsz type map ≡ done map1)
    × Reserved type xs map1 map'

-- The map has no room for some segment, after those in front of it have been taken out of it.
abbrev pub Refused : ℕ → List Segment → List Entry → Type 0
Refused type [] map = ⊥
Refused type (x ∷ xs) map =
    NoRoom x.base x.memsz map
    ⊎ ((map1 : List Entry) × (memmap_alloc_range x.base x.memsz type map ≡ done map1)
        × Refused type xs map1)

-- Every segment stands in memory and is taken out of the memory map, every other byte is as before, and the
-- top is not below the end of a segment.
pub record AreLoaded (file : ℕ → ℕ) (type : ℕ) (xs : List Segment) (s : Store) (top : ℕ)
    (s' : Store) (top' : ℕ) : Type 0 where
  pub each : All (IsLoaded file s'.mem) xs
  pub outside : (a : ℕ) → All (λ x. ¬ (Holds x a)) xs → s'.mem a ≡ s.mem a
  pub tops : All (λ x. x.base + x.memsz ≤ top') xs
  pub grows : top ≤ top'
  pub reserved : Reserved type xs s.memmap s'.memmap

-- The memory map may have no room for a segment, which is a panic; nothing else goes wrong.
abbrev Loads : (ℕ → ℕ) → ℕ → List Segment → Store → ℕ → Outcome (Option (Store × ℕ)) → Type 0
Loads file type xs s top panic = Refused type xs s.memmap
Loads file type xs s top out_of_bounds = ⊥
Loads file type xs s top (done none) = ⊥
Loads file type xs s top (done (some (s', top'))) = AreLoaded file type xs s top s' top'

not_held :
    (x : Segment) (ys : List Segment) (a : ℕ)
    → All (Apart x) ys
    → Holds x a
    → All (λ y. ¬ (Holds y a)) ys
not_held x [] a apart here = tt
not_held x (y ∷ ys) a (apart, rest) here =
    (λ there. omega (arith, apart, here, there), not_held x ys a rest here)

stays-IsLoaded :
    (file mem mem' : ℕ → ℕ) (x : Segment)
    → x.filesz ≤ x.memsz
    → ((a : ℕ) → Holds x a → mem' a ≡ mem a)
    → IsLoaded file mem x
    → IsLoaded file mem' x
stays-IsLoaded file mem mem' x le same h = record {
  copied = λ k lt. same (x.base + k) (omega arith, omega (arith, lt, le)) ∙ h.copied k lt;
  cleared = λ k low lt. same (x.base + k) (omega arith, omega (arith, lt)) ∙ h.cleared k low lt;
}

join-AreLoaded :
    (file : ℕ → ℕ) (type : ℕ) (x : Segment) (ys : List Segment) (s s1 s2 : Store)
    (top top1 top2 : ℕ)
    → x.filesz ≤ x.memsz
    → All (Apart x) ys
    → AreLoaded file type (x ∷ []) s top s1 top1
    → AreLoaded file type ys s1 top1 s2 top2
    → AreLoaded file type (x ∷ ys) s top s2 top2
join-AreLoaded file type x ys s s1 s2 top top1 top2 le apart h h' =
    let (t, none_left) = h.tops in
    let (map1, taken, same) = h.reserved in
    let g = h.grows in
    let g' = h'.grows in
    record {
      each = (
        stays-IsLoaded file s1.mem s2.mem x le (λ a here. h'.outside a (not_held x ys a apart here))
            h.each.0,
        h'.each,
      );
      outside = λ a (out, rest). h'.outside a rest ∙ h.outside a (out, tt);
      tops = (omega (arith, t, g'), h'.tops);
      grows = omega (arith, g, g');
      reserved = (map1, taken, rw same at h'.reserved);
    }

join-Loads :
    (file : ℕ → ℕ) (type : ℕ) (x : Segment) (ys : List Segment) (s s1 : Store) (top top1 : ℕ)
    (o : Outcome (Option (Store × ℕ)))
    → x.filesz ≤ x.memsz
    → All (Apart x) ys
    → AreLoaded file type (x ∷ []) s top s1 top1
    → Loads file type ys s1 top1 o
    → Loads file type (x ∷ ys) s top o
join-Loads file type x ys s s1 top top1 panic le apart h r =
    let (map1, taken, same) = h.reserved in inr (map1, taken, rw same at r)
join-Loads file type x ys s s1 top top1 out_of_bounds le apart h r = r
join-Loads file type x ys s s1 top top1 (done none) le apart h r = r
join-Loads file type x ys s s1 top top1 (done (some (s2, top2))) le apart h r =
    join-AreLoaded file type x ys s s1 s2 top top1 top2 le apart h r

next-Loads :
    (file : ℕ → ℕ) (type : ℕ) (x : Segment) (ys : List Segment) (s : Store) (top : ℕ)
    (o : Outcome (Option (Store × ℕ))) (go : Store → ℕ → Outcome (Option (Store × ℕ)))
    → x.filesz ≤ x.memsz
    → All (Apart x) ys
    → Loads file type (x ∷ []) s top o
    → ((s1 : Store) (top1 : ℕ) → Loads file type ys s1 top1 (go s1 top1))
    → Loads file type (x ∷ ys) s top (next_segment o go)
next-Loads file type x ys s top panic go le apart h rest = elim h [
  | inl no_room ↦ inl no_room
  | inr (map1, taken, nothing) ↦ elim nothing [ ]
]
next-Loads file type x ys s top out_of_bounds go le apart h rest = h
next-Loads file type x ys s top (done none) go le apart h rest = h
next-Loads file type x ys s top (done (some (s1, top1))) go le apart h rest =
    join-Loads file type x ys s s1 top top1 (go s1 top1) le apart h (rest s1 top1)

outside_cases : (x : Segment) (a : ℕ) → ¬ (Holds x a) → (a < x.base) ⊎ (x.base + x.memsz ≤ a)
outside_cases x a out = elim (Bool-cases (ltb a x.base)) [
  | inl low ↦ inl (ground (arith, low))
  | inr from ↦ elim (Bool-cases (ltb a (x.base + x.memsz))) [
    | inl inside ↦ absurd (out (ground (arith, from), ground (arith, inside)))
    | inr high ↦ inr (ground (arith, high))
  ]
]

module _ (file : ℕ → ℕ) (slide alloc_type : ℕ) (fixed : (field file 16 2 == et_dyn) ≡ false) where
  relocated_lem :
      (at top : ℕ) (p : Phdr) (s : Store) → relocated file at p slide s top ≡ some (s, top)
  unfolding elf64_apply_relocations
  relocated_lem at top p s = rw (elf64_apply_relocations, fixed) refl

  one-Loads :
      (p : Phdr) (s : Store) (top : ℕ) (o : Outcome (List Entry))
      → Fits (segment_of slide p)
      → memmap_alloc_range (load_address slide p.vaddr) p.memsz alloc_type s.memmap ≡ o
      → Loads file alloc_type (segment_of slide p ∷ []) s top (
          o >>= λ map. done (
            relocated file
              (u32 (load_address slide p.vaddr))
              p
              slide
              (record { memmap = map; mem = filled file (segment_of slide p) s.mem })
              (max (u64 (load_address slide p.vaddr + p.memsz)) top)))
  one-Loads p s top panic fits e =
      inl (memmap_alloc_range-NoRoom (load_address slide p.vaddr) p.memsz alloc_type s.memmap e)
  one-Loads p s top out_of_bounds fits e =
      subst Ends e
        (memmap_alloc_range-Ends (load_address slide p.vaddr) p.memsz alloc_type s.memmap)
  one-Loads p s top (done map) fits e =
      let x = segment_of slide p in
      rw
        (relocated_lem (u32 (load_address slide p.vaddr))
          (max (u64 (load_address slide p.vaddr + p.memsz)) top) p
          (record { memmap = map; mem = filled file x s.mem }))
        (record {
          each = (filled-IsLoaded file s.mem x fits, tt);
          outside = λ a (out, rest). filled-outside file s.mem x fits a (outside_cases x a out);
          tops = (ground (arith, fits), tt);
          grows = ground arith;
          reserved = (map, e, refl);
        })

  load_segment64-Loads :
      (p : Phdr) (s : Store) (top : ℕ)
      → (p.type == pt_load) ≡ true
      → Fits (segment_of slide p)
      → Loads file alloc_type
          (segment_of slide p ∷ [])
          s
          top
          (load_segment64 file slide alloc_type p s top)
  unfolding load_segment64
  load_segment64-Loads p s top kind fits =
      let at : u32 (load_address slide p.vaddr) ≡ load_address slide p.vaddr =
        omega (arith, fits) in
      let size : u32 p.memsz ≡ p.memsz = omega (arith, fits) in
      rw (load_segment64, kind)
        (one-Loads p s top
          (memmap_alloc_range (u32 (load_address slide p.vaddr)) (u32 p.memsz) alloc_type s.memmap)
          fits (rw (at, size) refl))

  step-Loads :
      (t : Bool) (p : Phdr) (ys : List Segment) (s : Store) (top : ℕ)
      (go : Store → ℕ → Outcome (Option (Store × ℕ)))
      → (p.type == pt_load) ≡ t
      → All Fits (cons_if t (segment_of slide p) ys)
      → AllApart (cons_if t (segment_of slide p) ys)
      → (All Fits ys
          → AllApart ys
          → (s1 : Store) (top1 : ℕ) → Loads file alloc_type ys s1 top1 (go s1 top1))
      → Loads file alloc_type
          (cons_if t (segment_of slide p) ys)
          s
          top
          (next_segment (load_segment64 file slide alloc_type p s top) go)
  unfolding load_segment64
  step-Loads true p ys s top go kind (fit, fits) (apart, rest) h =
      next-Loads file alloc_type (segment_of slide p) ys s top
        (load_segment64 file slide alloc_type p s top) go fit.1 apart
        (load_segment64-Loads p s top kind fit) (h fits rest)
  step-Loads false p ys s top go kind fits apart h = rw (load_segment64, kind) (h fits apart s top)

  load_segments64-Loads :
      (n i : ℕ) (s : Store) (top : ℕ)
      → All Fits (segments slide file n i)
      → AllApart (segments slide file n i)
      → Loads file alloc_type
          (segments slide file n i)
          s
          top
          (load_segments64 n i file slide alloc_type s top)
  unfolding load_segments64
  load_segments64-Loads zero i s top fits apart = record {
    each = tt;
    outside = λ a out. refl;
    tops = tt;
    grows = omega arith;
    reserved = refl;
  }
  load_segments64-Loads (suc n) i s top fits apart =
      step-Loads ((phdr64 file i).type == pt_load) (phdr64 file i) (segments slide file n (i + 1)) s
        top (load_segments64 n (i + 1) file slide alloc_type) refl fits apart
        (λ fits' apart' s1 top1. load_segments64-Loads n (i + 1) s1 top1 fits' apart')

-- The same with the entry point.
abbrev pub Starts :
    (ℕ → ℕ) → ℕ → List Segment → ℕ → Store → Outcome (Option (Store × (ℕ × ℕ))) → Type 0
Starts file type xs entry s panic = Refused type xs s.memmap
Starts file type xs entry s out_of_bounds = ⊥
Starts file type xs entry s (done none) = ⊥
Starts file type xs entry s (done (some (s', (entry', top)))) =
    (entry' ≡ entry) × AreLoaded file type xs s 0 s' top

with_entry-Starts :
    (file : ℕ → ℕ) (type : ℕ) (xs : List Segment) (entry : ℕ) (s : Store)
    (o : Outcome (Option (Store × ℕ)))
    → Loads file type xs s 0 o
    → Starts file type xs entry s (o >>= with_entry entry)
with_entry-Starts file type xs entry s panic h = h
with_entry-Starts file type xs entry s out_of_bounds h = h
with_entry-Starts file type xs entry s (done none) h = h
with_entry-Starts file type xs entry s (done (some (s', top))) h = (refl, h)

-- For a 64-bit file that is not relocatable and whose segments, brought down from the upper half and
-- slid, end below 4 GiB, lie apart and have no more bytes in the file than in memory, `elf64_load` gives
-- the entry of the file as it stands, puts every segment into memory with zeros behind the bytes of the
-- file, changes no other byte, takes the segments out of the memory map one after the other, and its top
-- is at or above every end. Or it panics, and then, after the segments in front of some segment have been
-- taken out of it, no usable entry of the map contains that segment, or the map is full but for at most
-- one entry.
pub elf64_load-Starts :
    (file : ℕ → ℕ) (slide alloc_type : ℕ) (s : Store)
    → is_elf arch_x86_64 file ≡ true
    → field file 16 2 ≢ et_dyn
    → All Fits (segments slide file (field file 56 2) 0)
    → AllApart (segments slide file (field file 56 2) 0)
    → Starts file alloc_type
        (segments slide file (field file 56 2) 0)
        (field file 24 8)
        s
        (elf64_load file slide alloc_type s)
unfolding elf64_load
elf64_load-Starts file slide alloc_type s elf static fits apart =
    let fixed : (field file 16 2 == et_dyn) ≡ false = ground (arith, static) in
    rw (elf64_load, elf, fixed)
      (with_entry-Starts file alloc_type (segments slide file (field file 56 2) 0) (field file 24 8)
        s (load_segments64 (field file 56 2) 0 file slide alloc_type s 0)
        (load_segments64-Loads file slide alloc_type fixed (field file 56 2) 0 s 0 fits apart))
