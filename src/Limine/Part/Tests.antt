-- ===== src/Limine/Part/Tests.antt =====
-- A disk with two entries in a table of GUIDs, and one with a master boot record.
use orionis_os.Base.{
  ℕ, zero, suc, ◌+◌, ◌-◌, ◌/◌, ◌%◌, ◌^◌, ◌<◌, ◌≡◌, refl, true, false, arith, Bool, leb, ◌==◌,
  if◌then◌else◌, eqb→eq, all_below, all_below_sound, Option, none, some, List, [], ◌∷◌, ◌++◌,
  get_or, inl,
}
use orionis_os.Base.Text.{codes}
use orionis_os.Limine.Bump.{Bump, conv_mem_alloc, conv_mem_alloc_aligned}
use orionis_os.Limine.Memmap.{done, out_of_bounds, zero_fill}
use orionis_os.Limine.Part.{Part, found, get_part, bytes_at, has_bytes, little_endian}
use orionis_os.Limine.Part.Bytes.{HasNumber}
use orionis_os.Limine.Part.Gpt.{HasPart, HasGpt, get_part-HasGpt}
use orionis_os.Limine.Part.Index.{Index, index_drive, count_loop}
use orionis_os.Limine.Part.Index.Filling.{HasParts, index_drive-HasGpt, count_loop_no_table}
use orionis_os.Limine.Part.Mbr.{HasMbr, mbr_part, get_part-HasMbr}

abbrev zeros : ℕ → List ℕ
zeros zero = []
zeros (suc n) = 0 ∷ zeros n

abbrev header : List ℕ
header = codes "EFI PART" ++ (0 ∷ 0 ∷ 1 ∷ 0 ∷ [] ++ (zeros 60 ++ (2 ∷ [] ++ (zeros 7 ++ (2 ∷ [])))))

abbrev first_entry : List ℕ
first_entry =
    zeros 16
    ++ (1 ∷ 2 ∷ 3 ∷ 4 ∷ 5 ∷ 6 ∷ 7 ∷ 8 ∷ 9 ∷ 10 ∷ 11 ∷ 12 ∷ 13 ∷ 14 ∷ 15 ∷ 16 ∷ 34 ∷ []
        ++ (zeros 7 ++ (99 ∷ [])))

abbrev gpt_disk : ℕ → ℕ
gpt_disk a =
    if leb 1024 a
    then get_or first_entry (a - 1024) 0
    else if leb 512 a
    then get_or header (a - 512) 0
    else 0

abbrev part_one : Part
part_one = record {
  first_sect = 34;
  sect_count = 66;
  guid = record {
    a = 0x04030201;
    b = 0x0605;
    c = 0x0807;
    d = 9 ∷ 10 ∷ 11 ∷ 12 ∷ 13 ∷ 14 ∷ 15 ∷ 16 ∷ [];
  };
}

abbrev entries : List (Option Part)
entries = some part_one ∷ none ∷ []

abbrev shows : (ℕ → ℕ) → ℕ → ℕ → ℕ → Bool
shows disk place n v = all_below n (λ i. disk (place + i) == v / 256 ^ i % 256)

has_number :
    (disk : ℕ → ℕ) (place n v : ℕ)
    → v < 256 ^ n
    → shows disk place n v ≡ true
    → HasNumber disk place n v
has_number disk place n v small h =
    (small, λ i lt. eqb→eq (disk (place + i)) (v / 256 ^ i % 256) (all_below_sound n i _ h lt))

part_one_there : HasPart gpt_disk 1024 part_one
unfolding all_below bytes_at
part_one_there = record {
  not_empty = omega arith;
  count_word = omega arith;
  first = has_number gpt_disk 1056 8 34 (omega arith) refl;
  last = has_number gpt_disk 1064 8 99 (omega arith) refl;
  guid_a = has_number gpt_disk 1040 4 0x04030201 (omega arith) refl;
  guid_b = has_number gpt_disk 1044 2 0x0605 (omega arith) refl;
  guid_c = has_number gpt_disk 1046 2 0x0807 (omega arith) refl;
  guid_d = refl;
  some_byte = (0, omega arith, omega arith);
}

nothing_there : (i : ℕ) → i < 16 → gpt_disk (1152 + 16 + i) ≡ 0
unfolding all_below
nothing_there i lt =
    eqb→eq (gpt_disk (1152 + 16 + i)) 0
      (all_below_sound 16 i (λ j. gpt_disk (1152 + 16 + j) == 0) refl lt)

gpt_disk-HasGpt : HasGpt gpt_disk 2 entries
unfolding all_below
gpt_disk-HasGpt = record {
  signature = (refl, (refl, (refl, (refl, (refl, (refl, (refl, (refl, tt))))))));
  revision = has_number gpt_disk 520 4 0x00010000 (omega arith) refl;
  start = has_number gpt_disk 584 8 2 (omega arith) refl;
  count = has_number gpt_disk 592 4 2 (omega arith) refl;
  fits = omega arith;
  few = omega arith;
  table = (part_one_there, (nothing_there, tt));
}

get_part-HasGpt_example : get_part gpt_disk 0 ≡ found part_one
get_part-HasGpt_example = get_part-HasGpt gpt_disk 2 entries 0 gpt_disk-HasGpt (omega arith)

abbrev empty : Index
empty = record {
  bump = record { base = 0x1000; limit = 0x80000; mem = λ a. 0 };
  part_index = 0;
  part_index_i = 0;
  parts = λ a. none;
  room = 0;
}

abbrev bump_after : Bump
bump_after = record { base = 0x1020; limit = 0x80000; mem = zero_fill 0x1000 32 (λ a. 0) }

allocated : conv_mem_alloc 0 32 empty.bump ≡ done (bump_after, 0x1000)
unfolding conv_mem_alloc conv_mem_alloc_aligned
allocated = refl

index_drive-HasGpt_example :
    (s' : Index) × (index_drive 3 0 gpt_disk empty ≡ done s')
    × (s'.part_index ≡ 0x1000)
    × (s'.part_index_i ≡ 1)
    × HasParts s'.parts 0x1000 0 (part_one ∷ [])
index_drive-HasGpt_example =
    index_drive-HasGpt 3 0 gpt_disk 2 entries empty bump_after 0x1000 gpt_disk-HasGpt refl
      (omega arith) allocated

-- The second slot holds the sectors from 63 on, 1000 of them.
abbrev mbr_disk : ℕ → ℕ
mbr_disk a =
    if leb 440 a
    then get_or
        (0xEF ∷ 0xBE ∷ 0xAD ∷ 0xDE ∷ []
          ++ (zeros 18 ++ (0 ∷ 0 ∷ 0 ∷ 0 ∷ 0x83 ∷ 0 ∷ 0 ∷ 0 ∷ 63 ∷ 0 ∷ 0 ∷ 0 ∷ 0xE8 ∷ 3 ∷ [])))
        (a - 440) 0
    else 0

abbrev slots : List (Option (ℕ × ℕ))
slots = none ∷ some (63, 1000) ∷ none ∷ none ∷ []

mbr_disk-HasMbr : HasMbr mbr_disk 0xDEADBEEF slots
unfolding all_below
mbr_disk-HasMbr = record {
  no_gpt = λ (e, rest). omega (arith, e);
  hint = inl (has_number mbr_disk 444 2 0 (omega arith) refl);
  signed = has_number mbr_disk 440 4 0xDEADBEEF (omega arith) refl;
  four = refl;
  table = (
    refl,
    (
      record {
        used = omega arith;
        has_first = has_number mbr_disk 470 4 63 (omega arith) refl;
        has_count = has_number mbr_disk 474 4 1000 (omega arith) refl;
      },
      (refl, (refl, tt)),
    ),
  );
}

get_part-HasMbr_run : get_part mbr_disk 1 ≡ found (mbr_part 0xDEADBEEF 1 (63, 1000))
get_part-HasMbr_run = get_part-HasMbr mbr_disk 0xDEADBEEF slots 1 (omega arith) mbr_disk-HasMbr

abbrev bare_disk : ℕ → ℕ
bare_disk a = if a == 444 then 1 else 0

bare_no_gpt : has_bytes bare_disk 512 (codes "EFI PART") ≡ false
unfolding has_bytes
bare_no_gpt = refl

bare_hint : little_endian bare_disk 444 2 ≡ 1
unfolding little_endian
bare_hint = refl

count_loop_no_table_run : count_loop 1000 bare_disk 0 0 ≡ out_of_bounds
count_loop_no_table_run =
    count_loop_no_table 1000 bare_disk 0 0 bare_no_gpt (λ e. omega (arith, e, bare_hint))
      (λ e. omega (arith, e, bare_hint))
