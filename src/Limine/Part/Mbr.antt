-- ===== src/Limine/Part/Mbr.antt =====
-- A master boot record on a disk without a table of GUIDs, and what `get_part` finds in it.
use orionis_os.Base.{
  subst, u32, ℕ, ◌+◌, ◌*◌, ◌%◌, ◌^◌, ◌<◌, ◌≡◌, ◌≢◌, ◌⊎◌, refl, arith, true, false, ◌&&◌, ◌==◌, ltb,
  not, Option, none, some, List, [], ◌∷◌, length, get_elem?, inl, inr, Bool-cases,
}
use orionis_os.Base.Text.{codes}
use orionis_os.Limine.Part.{
  Part, Answer, found, no_partition, end_of_table, little_endian, mbr_entry, gpt_get_part,
  mbr_get_part, get_part,
}
use orionis_os.Limine.Part.Bytes.{HasNumber, little_endian-HasNumber}
use orionis_os.Limine.Part.Gpt.{HasText, has_bytes_no, entry_at, HasTable, get_elem?-end}

-- The first sector and the number of sectors of an entry, whose type is not 0.
pub record HasSectors (disk : ℕ → ℕ) (place first count : ℕ) : Type 0 where
  pub used : disk (place + 4) ≢ 0
  pub has_first : HasNumber disk (place + 8) 4 first
  pub has_count : HasNumber disk (place + 12) 4 count

abbrev pub HasSlot : (ℕ → ℕ) → ℕ → Option (ℕ × ℕ) → Type 0
HasSlot disk place none = disk (place + 4) ≡ 0
HasSlot disk place (some (first, count)) = HasSectors disk place first count

pub record HasMbr (disk : ℕ → ℕ) (signature : ℕ) (slots : List (Option (ℕ × ℕ))) : Type 0 where
  pub no_gpt : ¬ (HasText disk 512 (codes "EFI PART"))
  pub hint : HasNumber disk 444 2 0 ⊎ HasNumber disk 444 2 0x5a5a
  pub signed : HasNumber disk 440 4 signature
  pub four : length slots ≡ 4
  pub table : HasTable (HasSlot disk) 16 0x1be slots

-- The partition of a slot, with a GUID made of the signature of the disk and the slot's number.
abbrev pub mbr_part : ℕ → ℕ → ℕ × ℕ → Part
mbr_part signature i (first, count) = record {
  first_sect = first;
  sect_count = count;
  guid = record { a = signature; b = 256 * (i + 1); c = 0; d = 0 ∷ 0 ∷ 0 ∷ 0 ∷ 0 ∷ 0 ∷ 0 ∷ 0 ∷ [] };
}

abbrev pub slot_answer : ℕ → ℕ → Option (Option (ℕ × ℕ)) → Answer
slot_answer signature i none = end_of_table
slot_answer signature i (some none) = no_partition
slot_answer signature i (some (some sectors)) = found (mbr_part signature i sectors)

mbr_entry_lem :
    (disk : ℕ → ℕ) (signature i place : ℕ) (e : Option (ℕ × ℕ))
    → i < 4
    → HasNumber disk 440 4 signature
    → HasSlot disk place e
    → mbr_entry disk i place ≡ slot_answer signature i (some e)
unfolding mbr_entry
mbr_entry_lem disk signature i place none lt signed h =
    let empty : (disk (place + 4) == 0) ≡ true = ground arith in rw empty refl
mbr_entry_lem disk signature i place (some (first, count)) lt signed h =
    let used : (disk (place + 4) == 0) ≡ false = let ne = h.used in ground (arith, ne) in
    let number : (i + 1) * 2 ^ 8 % 2 ^ 16 ≡ 256 * (i + 1) = omega (arith, lt) in
    rw
      (
        used,
        little_endian-HasNumber disk 440 4 signature signed,
        little_endian-HasNumber disk (place + 8) 4 first h.has_first,
        little_endian-HasNumber disk (place + 12) 4 count h.has_count,
        number,
      )
      refl

hint_lem :
    (disk : ℕ → ℕ)
    → HasNumber disk 444 2 0 ⊎ HasNumber disk 444 2 0x5a5a
    → (not (little_endian disk 444 2 == 0) && not (little_endian disk 444 2 == 0x5a5a)) ≡ false
hint_lem disk (inl h) = rw (little_endian-HasNumber disk 444 2 0 h) refl
hint_lem disk (inr h) = rw (little_endian-HasNumber disk 444 2 0x5a5a h) refl

four_slots :
    (disk : ℕ → ℕ) (slots : List (Option (ℕ × ℕ))) (i : ℕ)
    → length slots ≡ 4
    → HasTable (HasSlot disk) 16 0x1be slots
    → ((ltb 3 i ≡ true) × (get_elem? slots i ≡ none))
      ⊎ ((e : Option (ℕ × ℕ)) × (ltb 3 i ≡ false)
          × (get_elem? slots i ≡ some e)
          × HasSlot disk (0x1be + 16 * i) e
          × (i < 4))
four_slots disk slots i four table = elim (Bool-cases (ltb 3 i)) [
  | inl past ↦ inl (past, get_elem?-end slots i (ground (arith, past)))
  | inr inside ↦
      let lt : i < 4 = ground (arith, inside) in
      let (e, here, there) = entry_at (HasSlot disk) 16 0x1be slots i table (omega (arith, lt)) in
      inr (e, inside, here, subst (λ k. HasSlot disk k e) (omega arith) there, lt)
]

-- On a disk with a master boot record and no table of GUIDs, `get_part` answers the four slots, the
-- empty ones with no partition, and the end of the table for every later number up to 2 ^ 31.
pub get_part-HasMbr :
    (disk : ℕ → ℕ) (signature : ℕ) (slots : List (Option (ℕ × ℕ))) (partition : ℕ)
    → partition < 2 ^ 31
    → HasMbr disk signature slots
    → get_part disk partition ≡ slot_answer signature partition (get_elem? slots partition)
unfolding get_part gpt_get_part mbr_get_part
get_part-HasMbr disk signature slots partition small h =
    let no_gpt = has_bytes_no disk 512 (codes "EFI PART") h.no_gpt in
    let hint = hint_lem disk h.hint in
    elim (four_slots disk slots partition h.four h.table) [
      | inl (past, nothing) ↦
          let whole : ltb partition (2 ^ 31) ≡ true = ground (arith, small) in
          rw (get_part, gpt_get_part, no_gpt, mbr_get_part, hint, past, whole, nothing) refl
      | inr (e, inside, here, there, lt) ↦
          let place : u32 (0x1be + 16 * partition) ≡ 0x1be + 16 * partition = omega (arith, lt) in
          rw (get_part, gpt_get_part, no_gpt, mbr_get_part, hint, inside, place, here)
            (mbr_entry_lem disk signature partition (0x1be + 16 * partition) e lt h.signed there)
    ]
