-- ===== src/Limine/Part/Gpt.antt =====
-- A table with GUIDs on a disk, and what `get_part` finds in it.
use orionis_os.Base.{
  subst, ℕ, zero, suc, ◌+◌, ◌-◌, ◌*◌, ◌^◌, ◌≤◌, ◌<◌, ◌≡◌, ◌≢◌, ap, refl, arith, ◌==◌, false, true,
  leb, u32, u64, Option, none, some, List, [], ◌∷◌, length, get_elem?, inl, inr, Bool-cases,
}
use orionis_os.Base.Text.{codes}
use orionis_os.Limine.Part.{
  Part, Answer, found, no_partition, end_of_table, bytes_at, has_bytes, gpt_entry, gpt_get_part,
  get_part,
}
use orionis_os.Limine.Part.Bytes.{HasNumber, little_endian-HasNumber, all_zero_lem, all_zero_no}

-- The bytes of a text stand at a place.
abbrev pub HasText : (ℕ → ℕ) → ℕ → List ℕ → Type 0
HasText disk place [] = Unit
HasText disk place (c ∷ text) = (disk place ≡ c) × HasText disk (place + 1) text

-- A partition at a place: it has a sector, its numbers fit in words, and its own GUID is not all zero.
pub record HasPart (disk : ℕ → ℕ) (place : ℕ) (p : Part) : Type 0 where
  pub not_empty : 0 < p.sect_count
  pub count_word : p.sect_count < 2 ^ 64
  pub first : HasNumber disk (place + 32) 8 p.first_sect
  pub last : HasNumber disk (place + 40) 8 (p.first_sect + p.sect_count - 1)
  pub guid_a : HasNumber disk (place + 16) 4 p.guid.a
  pub guid_b : HasNumber disk (place + 16 + 4) 2 p.guid.b
  pub guid_c : HasNumber disk (place + 16 + 6) 2 p.guid.c
  pub guid_d : bytes_at disk (place + 16 + 8) 8 ≡ p.guid.d
  pub some_byte : (i : ℕ) × (i < 16) × (disk (place + 16 + i) ≢ 0)

abbrev pub HasEntry : (ℕ → ℕ) → ℕ → Option Part → Type 0
HasEntry disk place none = (i : ℕ) → i < 16 → disk (place + 16 + i) ≡ 0
HasEntry disk place (some p) = HasPart disk place p

-- Entries of `step` bytes each, from a place on.
abbrev pub HasTable : {A : Type 0} → (ℕ → A → Type 0) → ℕ → ℕ → List A → Type 0
HasTable P step place [] = Unit
HasTable P step place (x ∷ xs) = P place x × HasTable P step (place + step) xs

-- A table of entries of 128 bytes, the first in the sector `lba`.
pub record HasGpt (disk : ℕ → ℕ) (lba : ℕ) (entries : List (Option Part)) : Type 0 where
  pub signature : HasText disk 512 (codes "EFI PART")
  pub revision : HasNumber disk 520 4 0x00010000
  pub start : HasNumber disk 584 8 lba
  pub count : HasNumber disk 592 4 (length entries)
  pub fits : lba * 512 + length entries * 128 < 2 ^ 64
  pub few : length entries < 2 ^ 25
  pub table : HasTable (HasEntry disk) 128 (lba * 512) entries

-- What a list of entries answers.
abbrev pub answer : Option (Option Part) → Answer
answer none = end_of_table
answer (some none) = no_partition
answer (some (some p)) = found p

has_bytes_lem :
    (disk : ℕ → ℕ) (place : ℕ) (text : List ℕ)
    → HasText disk place text
    → has_bytes disk place text ≡ true
unfolding has_bytes
has_bytes_lem disk place [] h = refl
has_bytes_lem disk place (c ∷ text) (here, rest) =
    ground (arith, here, has_bytes_lem disk (place + 1) text rest)

pub has_bytes_no :
    (disk : ℕ → ℕ) (place : ℕ) (text : List ℕ)
    → ¬ (HasText disk place text)
    → has_bytes disk place text ≡ false
unfolding has_bytes
has_bytes_no disk place [] differ = absurd (differ tt)
has_bytes_no disk place (c ∷ text) differ = elim (Bool-cases (disk place == c)) [
  | inl here ↦
      rw here (has_bytes_no disk (place + 1) text (λ rest. differ (ground (arith, here), rest)))
  | inr other ↦ rw other refl
]

gpt_entry_lem :
    (disk : ℕ → ℕ) (place : ℕ) (e : Option Part)
    → HasEntry disk place e
    → gpt_entry disk place ≡ answer (some e)
unfolding gpt_entry
gpt_entry_lem disk place none h = rw (all_zero_lem disk (place + 16) 16 h) refl
gpt_entry_lem disk place (some p) h =
    let (i, lt, ne) = h.some_byte in
    let count : u64 (u64 (p.first_sect + p.sect_count - 1 + 2 ^ 64 - p.first_sect) + 1)
        ≡ p.sect_count =
      let end = h.last.0 in omega (arith, h.not_empty, h.count_word, end) in
    rw
      (
        all_zero_no disk (place + 16) 16 i lt ne,
        little_endian-HasNumber disk (place + 32) 8 p.first_sect h.first,
        little_endian-HasNumber disk (place + 40) 8 (p.first_sect + p.sect_count - 1) h.last,
        little_endian-HasNumber disk (place + 16) 4 p.guid.a h.guid_a,
        little_endian-HasNumber disk (place + 16 + 4) 2 p.guid.b h.guid_b,
        little_endian-HasNumber disk (place + 16 + 6) 2 p.guid.c h.guid_c,
        h.guid_d,
        count,
      )
      refl

pub entry_at :
    {A : Type 0} (P : ℕ → A → Type 0) (step place : ℕ) (xs : List A) (i : ℕ)
    → HasTable P step place xs
    → i < length xs
    → (x : A) × (get_elem? xs i ≡ some x) × P (place + i * step) x
entry_at P step place [] i h lt = absurd (omega arith)
entry_at P step place (x ∷ xs) zero (here, rest) lt =
    (x, refl, subst (λ k. P k x) (omega arith) here)
entry_at P step place (x ∷ xs) (suc i) (here, rest) lt =
    let (y, same_elem, there) = entry_at P step (place + step) xs i rest (omega arith) in
    let same : place + step + i * step ≡ place + suc i * step = grind arith in
    (y, same_elem, subst (λ k. P k y) same there)

pub get_elem?-end : {A : Type 0} (xs : List A) (i : ℕ) → length xs ≤ i → get_elem? xs i ≡ none
get_elem?-end [] i le = refl
get_elem?-end (x ∷ xs) zero le = absurd (omega arith)
get_elem?-end (x ∷ xs) (suc i) le = get_elem?-end xs i (omega arith)

gpt_get_part-HasGpt :
    (disk : ℕ → ℕ) (lba : ℕ) (entries : List (Option Part)) (partition : ℕ)
    → HasGpt disk lba entries
    → partition < 2 ^ 32
    → gpt_get_part disk partition ≡ some (answer (get_elem? entries partition))
unfolding gpt_get_part
gpt_get_part-HasGpt disk lba entries partition h small =
    let signature = has_bytes_lem disk 512 (codes "EFI PART") h.signature in
    let revision = little_endian-HasNumber disk 520 4 0x00010000 h.revision in
    let start = little_endian-HasNumber disk 584 8 lba h.start in
    let count = little_endian-HasNumber disk 592 4 (length entries) h.count in
    let number : u32 partition ≡ partition = omega (arith, small) in
    elim (Bool-cases (leb (length entries) partition)) [
      | inl end ↦
          let past = get_elem?-end entries partition (ground (arith, end)) in
          rw (gpt_get_part, signature, revision, count, number, end, past) refl
      | inr inside ↦
          let below : partition < length entries = ground (arith, inside) in
          let place : u64 (u64 (lba * 512) + u32 (partition * 128)) ≡ lba * 512 + partition * 128 =
            omega (arith, below, h.fits, h.few) in
          let (e, here, there) =
            entry_at (HasEntry disk) 128 (lba * 512) entries partition h.table below in
          rw (gpt_get_part, signature, revision, start, count, number, inside, place, here)
            (ap some (gpt_entry_lem disk (lba * 512 + partition * 128) e there))
    ]

-- On a disk with a table of fewer than 2 ^ 25 entries that ends below 2 ^ 64, `get_part` answers for
-- each number below 2 ^ 32 what the table has: the partition, no partition, or the end of the table.
pub get_part-HasGpt :
    (disk : ℕ → ℕ) (lba : ℕ) (entries : List (Option Part)) (partition : ℕ)
    → HasGpt disk lba entries
    → partition < 2 ^ 32
    → get_part disk partition ≡ answer (get_elem? entries partition)
unfolding get_part
get_part-HasGpt disk lba entries partition h small =
    rw (get_part, gpt_get_part-HasGpt disk lba entries partition h small) refl
