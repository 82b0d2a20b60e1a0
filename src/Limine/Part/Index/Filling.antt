-- ===== src/Limine/Part/Index/Filling.antt =====
-- What stands in the array after a drive, and where it ends.
use orionis_os.Base.{
  subst, ℕ, zero, suc, ◌+◌, ◌*◌, ◌≤◌, ◌<◌, ◌≡◌, ◌≢◌, ◌∙◌, ap, refl, arith, Option, none, some, List,
  [], ◌∷◌, length, get_elem?, ◌==◌, ◌&&◌, not, true, false, ltb, u32,
}
use orionis_os.Base.Text.{codes}
use orionis_os.Limine.Bump.{Bump, conv_mem_alloc}
use orionis_os.Limine.Memmap.{done, out_of_bounds}
use orionis_os.Limine.Part.{
  no_partition, Part, get_part, gpt_get_part, mbr_get_part, has_bytes, little_endian,
}
use orionis_os.Limine.Part.Gpt.{answer, HasGpt, get_part-HasGpt}
use orionis_os.Limine.Part.Index.{
  Index, part_size, count_loop, stored, put, fill_loop, with_array, index_drive,
}

-- `get_part` answers the entries for the numbers from `part` on.
abbrev pub Answers : (ℕ → ℕ) → ℕ → List (Option Part) → Type 0
Answers disk part entries =
    (i : ℕ) → i ≤ length entries → get_part disk (part + i) ≡ answer (get_elem? entries i)

-- The partitions of a table, without the empty entries.
abbrev pub present : List (Option Part) → List Part
present [] = []
present (none ∷ entries) = present entries
present (some p ∷ entries) = p ∷ present entries

abbrev put_all : List Part → Index → Index
put_all [] s = s
put_all (p ∷ ps) s = put_all ps (stored p s)

first_answer :
    (disk : ℕ → ℕ) (part : ℕ) (entries : List (Option Part))
    → Answers disk part entries
    → get_part disk part ≡ answer (get_elem? entries 0)
first_answer disk part entries h = ap (get_part disk) (omega arith) ∙ h 0 (omega arith)

next-Answers :
    (disk : ℕ → ℕ) (part : ℕ) (e : Option Part) (entries : List (Option Part))
    → Answers disk part (e ∷ entries)
    → Answers disk (part + 1) entries
next-Answers disk part e entries h i le = ap (get_part disk) (omega arith) ∙ h (suc i) (omega arith)

count_loop_lem :
    (fuel : ℕ) (disk : ℕ → ℕ) (part n : ℕ) (entries : List (Option Part))
    → Answers disk part entries
    → length entries < fuel
    → count_loop fuel disk part n ≡ done (n + length (present entries))
unfolding count_loop
count_loop_lem zero disk part n entries h lt = absurd (omega arith)
count_loop_lem (suc fuel) disk part n [] h lt =
    rw (count_loop, first_answer disk part [] h) (ap done (omega arith))
count_loop_lem (suc fuel) disk part n (none ∷ entries) h lt =
    rw (count_loop, first_answer disk part (none ∷ entries) h)
      (count_loop_lem fuel disk (part + 1) n entries (next-Answers disk part none entries h)
        (omega arith))
count_loop_lem (suc fuel) disk part n (some p ∷ entries) h lt =
    rw (count_loop, first_answer disk part (some p ∷ entries) h)
      (count_loop_lem fuel disk (part + 1) (n + 1) entries
          (next-Answers disk part (some p) entries h) (omega arith)
        ∙ ap done (omega arith))

fill_loop_lem :
    (fuel : ℕ) (disk : ℕ → ℕ) (part : ℕ) (entries : List (Option Part)) (s : Index)
    → Answers disk part entries
    → length entries < fuel
    → s.part_index_i + length (present entries) ≤ s.room
    → fill_loop fuel disk part s ≡ done (put_all (present entries) s)
unfolding fill_loop put
fill_loop_lem zero disk part entries s h lt fits = absurd (omega arith)
fill_loop_lem (suc fuel) disk part [] s h lt fits = rw (fill_loop, first_answer disk part [] h) refl
fill_loop_lem (suc fuel) disk part (none ∷ entries) s h lt fits =
    rw (fill_loop, first_answer disk part (none ∷ entries) h)
      (fill_loop_lem fuel disk (part + 1) entries s (next-Answers disk part none entries h)
        (omega arith) fits)
fill_loop_lem (suc fuel) disk part (some p ∷ entries) s h lt fits =
    let inside : ltb s.part_index_i s.room ≡ true = ground (arith, fits) in
    rw (fill_loop, first_answer disk part (some p ∷ entries) h, put, inside)
      (fill_loop_lem fuel disk (part + 1) entries (stored p s)
        (next-Answers disk part (some p) entries h) (omega arith) (omega (arith, fits)))

-- The structures of a list stand from index `from` on in the array at `place`.
abbrev pub HasParts : (ℕ → Option Part) → ℕ → ℕ → List Part → Type 0
HasParts parts place from [] = Unit
HasParts parts place from (p ∷ ps) =
    (parts (place + part_size * from) ≡ some p) × HasParts parts place (from + 1) ps

put_all-place : (ps : List Part) (s : Index) → (put_all ps s).part_index ≡ s.part_index
put_all-place [] s = refl
put_all-place (p ∷ ps) s = put_all-place ps (stored p s)

put_all-end :
    (ps : List Part) (s : Index) → (put_all ps s).part_index_i ≡ s.part_index_i + length ps
put_all-end [] s = omega arith
put_all-end (p ∷ ps) s = omega (arith, put_all-end ps (stored p s))

-- The structures before the next free index stay.
put_all-before :
    (ps : List Part) (s : Index) (a : ℕ)
    → a < s.part_index + part_size * s.part_index_i
    → (put_all ps s).parts a ≡ s.parts a
put_all-before [] s a lt = refl
put_all-before (p ∷ ps) s a lt =
    let other : (a == s.part_index + part_size * s.part_index_i) ≡ false = ground (arith, lt) in
    put_all-before ps (stored p s) a (omega (arith, lt)) ∙ rw other refl

put_all-HasParts :
    (ps : List Part) (s : Index) → HasParts (put_all ps s).parts s.part_index s.part_index_i ps
put_all-HasParts [] s = tt
put_all-HasParts (p ∷ ps) s =
    let a = s.part_index + part_size * s.part_index_i in
    let same : (a == a) ≡ true = ground arith in
    (
      put_all-before ps (stored p s) a (omega arith) ∙ rw same refl,
      put_all-HasParts ps (stored p s),
    )

-- When no partition is indexed yet, `get_part` answers the entries of a table, and memory for its
-- partitions is handed out, with fuel for one more round than there are entries, the array in that memory
-- has the partitions in the order of the table, and the index is their number.
pub index_drive-HasParts :
    (fuel gdt : ℕ) (disk : ℕ → ℕ) (entries : List (Option Part)) (s : Index) (bump' : Bump)
    (place : ℕ)
    → Answers disk 0 entries
    → s.part_index_i ≡ 0
    → length entries < fuel
    → conv_mem_alloc gdt (u32 (part_size * length (present entries))) s.bump ≡ done (bump', place)
    → (s' : Index) × (index_drive fuel gdt disk s ≡ done s')
      × (s'.part_index ≡ place)
      × (s'.part_index_i ≡ length (present entries))
      × HasParts s'.parts place 0 (present entries)
unfolding index_drive
index_drive-HasParts fuel gdt disk entries s bump' place h fresh lt allocated =
    let ps = present entries in
    let s1 = with_array (length ps) (bump', place) s in
    let counted = count_loop_lem fuel disk 0 0 entries h lt in
    let none_before : 0 + length ps ≡ length ps = omega arith in
    (
      put_all ps s1,
      rw (counted, none_before, allocated)
          (fill_loop_lem fuel disk 0 entries s1 h lt (omega (arith, fresh))),
      put_all-place ps s1,
      omega (arith, put_all-end ps s1, fresh),
      subst (λ k. HasParts (put_all ps s1).parts place k ps) fresh (put_all-HasParts ps s1),
    )

-- When no partition is indexed yet and a disk has a table of GUIDs with fewer than 2 ^ 25 entries, and
-- memory for its partitions is handed out, with fuel for one more round than there are entries, the array
-- in that memory has the partitions in the order of the table, and the index is their number.
pub index_drive-HasGpt :
    (fuel gdt : ℕ) (disk : ℕ → ℕ) (lba : ℕ) (entries : List (Option Part)) (s : Index)
    (bump' : Bump) (place : ℕ)
    → HasGpt disk lba entries
    → s.part_index_i ≡ 0
    → length entries < fuel
    → conv_mem_alloc gdt (u32 (part_size * length (present entries))) s.bump ≡ done (bump', place)
    → (s' : Index) × (index_drive fuel gdt disk s ≡ done s')
      × (s'.part_index ≡ place)
      × (s'.part_index_i ≡ length (present entries))
      × HasParts s'.parts place 0 (present entries)
index_drive-HasGpt fuel gdt disk lba entries s bump' place h fresh lt allocated =
    index_drive-HasParts fuel gdt disk entries s bump' place
      (λ i le.
        let from_start : i ≡ 0 + i = omega arith in
        subst (λ k. get_part disk k ≡ answer (get_elem? entries i)) from_start
          (get_part-HasGpt disk lba entries i h (omega (arith, le, h.few))))
      fresh lt allocated

fill_loop_behind :
    (fuel : ℕ) (disk : ℕ → ℕ) (part : ℕ) (p : Part) (entries : List (Option Part)) (s : Index)
    → Answers disk part (some p ∷ entries)
    → s.room ≤ s.part_index_i
    → fill_loop (suc fuel) disk part s ≡ out_of_bounds
unfolding fill_loop put
fill_loop_behind fuel disk part p entries s h full =
    let outside : ltb s.part_index_i s.room ≡ false = ground (arith, full) in
    rw (fill_loop, first_answer disk part (some p ∷ entries) h, put, outside) refl

-- On a later drive, when at least as many partitions are indexed as this one has, the first store is behind the array.
pub index_drive_behind :
    (fuel gdt : ℕ) (disk : ℕ → ℕ) (p : Part) (entries : List (Option Part)) (s : Index)
    (bump' : Bump) (place : ℕ)
    → Answers disk 0 (some p ∷ entries)
    → length (present (some p ∷ entries)) ≤ s.part_index_i
    → length (some p ∷ entries) < fuel
    → conv_mem_alloc gdt (u32 (part_size * length (present (some p ∷ entries)))) s.bump
      ≡ done (bump', place)
    → index_drive fuel gdt disk s ≡ out_of_bounds
unfolding index_drive fill_loop put
index_drive_behind zero gdt disk p entries s bump' place h many lt allocated = absurd (omega arith)
index_drive_behind (suc fuel) gdt disk p entries s bump' place h many lt allocated =
    let ps = present (some p ∷ entries) in
    let counted = count_loop_lem (suc fuel) disk 0 0 (some p ∷ entries) h lt in
    let none_before : 0 + length ps ≡ length ps = omega arith in
    rw (counted, none_before, allocated)
      (fill_loop_behind fuel disk 0 p entries (with_array (length ps) (bump', place) s) h many)

get_part_no_table :
    (disk : ℕ → ℕ) (partition : ℕ)
    → has_bytes disk 512 (codes "EFI PART") ≡ false
    → little_endian disk 444 2 ≢ 0
    → little_endian disk 444 2 ≢ 0x5a5a
    → get_part disk partition ≡ no_partition
unfolding get_part gpt_get_part mbr_get_part
get_part_no_table disk partition no_gpt some_hint other_hint =
    let hint : (not (little_endian disk 444 2 == 0) && not (little_endian disk 444 2 == 0x5a5a))
        ≡ true =
      ground arith in
    rw (get_part, gpt_get_part, no_gpt, mbr_get_part, hint) refl

-- A disk with neither table is counted for ever.
pub count_loop_no_table :
    (fuel : ℕ) (disk : ℕ → ℕ) (part n : ℕ)
    → has_bytes disk 512 (codes "EFI PART") ≡ false
    → little_endian disk 444 2 ≢ 0
    → little_endian disk 444 2 ≢ 0x5a5a
    → count_loop fuel disk part n ≡ out_of_bounds
unfolding count_loop
count_loop_no_table zero disk part n no_gpt some_hint other_hint = refl
count_loop_no_table (suc fuel) disk part n no_gpt some_hint other_hint =
    rw (count_loop, get_part_no_table disk part no_gpt some_hint other_hint)
      (count_loop_no_table fuel disk (part + 1) n no_gpt some_hint other_hint)
