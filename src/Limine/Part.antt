-- ===== src/Limine/Part.antt =====
-- The partitions of a disk: limine/stage2/lib/part.c. A disk is the function from a place to its byte
-- that `read` gives; a read that fails does not return. What `gpt_get_part` and `mbr_get_part` call
-- `INVALID_TABLE` is `none`.
pub mod Index
pub mod Bytes
pub mod Gpt
mod Mbr
mod Tests
use orionis_os.Base.{
  ℕ, zero, suc, ◌+◌, ◌-◌, ◌*◌, ◌%◌, ◌^◌, Bool, true, false, not, Option, none, some, List, [], ◌∷◌,
  ltb, leb, ◌==◌, ◌&&◌, u32, u64, if◌then◌else◌,
}
use orionis_os.Base.Text.{codes}

-- `uint8_t d[8]` is a list.
pub record Guid : Type 0 where
  pub a : ℕ
  pub b : ℕ
  pub c : ℕ
  pub d : List ℕ

pub record Part : Type 0 where
  pub first_sect : ℕ
  pub sect_count : ℕ
  pub guid : Guid

pub data Answer : Type 0 where
  found : Part → Answer
  no_partition : Answer
  end_of_table : Answer

-- The number in `n` bytes, the lowest first.
unfoldable pub little_endian : (ℕ → ℕ) → ℕ → ℕ → ℕ
little_endian disk place zero = 0
little_endian disk place (suc n) = disk place + 256 * little_endian disk (place + 1) n

unfoldable pub bytes_at : (ℕ → ℕ) → ℕ → ℕ → List ℕ
bytes_at disk place zero = []
bytes_at disk place (suc n) = disk place ∷ bytes_at disk (place + 1) n

-- `strncmp` with the word, which holds no byte 0, finds no difference.
unfoldable pub has_bytes : (ℕ → ℕ) → ℕ → List ℕ → Bool
has_bytes disk place [] = true
has_bytes disk place (c ∷ word) = disk place == c && has_bytes disk (place + 1) word

-- `memcmp` with `n` bytes 0 finds no difference.
pub all_zero : (ℕ → ℕ) → ℕ → ℕ → Bool
all_zero disk place zero = true
all_zero disk place (suc n) = disk place == 0 && all_zero disk (place + 1) n

abbrev pub guid_at : (ℕ → ℕ) → ℕ → Guid
guid_at disk place = record {
  a = little_endian disk place 4;
  b = little_endian disk (place + 4) 2;
  c = little_endian disk (place + 6) 2;
  d = bytes_at disk (place + 8) 8;
}

-- The entry of a partition, which lies at a place of the disk.
pub gpt_entry : (ℕ → ℕ) → ℕ → Answer
gpt_entry disk entry =
    if all_zero disk (entry + 16) 16
    then no_partition
    else found (record {
      first_sect = little_endian disk (entry + 32) 8;
      sect_count = u64 (
          u64 (little_endian disk (entry + 40) 8 + 2 ^ 64 - little_endian disk (entry + 32) 8) + 1);
      guid = guid_at disk (entry + 16);
    })

pub gpt_get_part : (ℕ → ℕ) → ℕ → Option Answer
gpt_get_part disk partition =
    if not (has_bytes disk 512 (codes "EFI PART"))
    then none
    else if not (little_endian disk 520 4 == 0x00010000)
    then some end_of_table
    else if leb (little_endian disk 592 4) (u32 partition)
    then some end_of_table
    else some (gpt_entry disk (u64 (u64 (little_endian disk 584 8 * 512) + u32 (partition * 128))))

pub mbr_entry : (ℕ → ℕ) → ℕ → ℕ → Answer
mbr_entry disk partition entry =
    if disk (entry + 4) == 0
    then no_partition
    else found (record {
      first_sect = little_endian disk (entry + 8) 4;
      sect_count = little_endian disk (entry + 12) 4;
      guid = record {
        a = little_endian disk 440 4;
        b = (partition + 1) * 2 ^ 8 % 2 ^ 16;
        c = 0;
        d = 0 ∷ 0 ∷ 0 ∷ 0 ∷ 0 ∷ 0 ∷ 0 ∷ 0 ∷ [];
      };
    })

-- The number is an `int`, taken as a word of 32 bits: a negative one passes the test.
pub mbr_get_part : (ℕ → ℕ) → ℕ → Option Answer
mbr_get_part disk partition =
    let hint = little_endian disk 444 2 in
    if not (hint == 0) && not (hint == 0x5a5a)
    then none
    else if ltb 3 partition && ltb partition (2 ^ 31)
    then some end_of_table
    else some (mbr_entry disk partition (u32 (0x1be + 16 * partition)))

pub get_part : (ℕ → ℕ) → ℕ → Answer
get_part disk partition = elim (gpt_get_part disk partition) [
  | some answer ↦ answer
  | none ↦ elim (mbr_get_part disk partition) [ some answer ↦ answer | none ↦ no_partition ]
]
