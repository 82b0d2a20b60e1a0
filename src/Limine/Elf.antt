-- ===== src/Limine/Elf.antt =====
-- The loader of limine/stage2/lib/elf.c. A file is the function from a place to its byte, as `fread`
-- gives it. Memory and its map are the store of Memmap; pointers and `size_t` have 32 bits. `none` and
-- the number 1 are the failures of the source, after which the memory keeps what was written.
pub mod Load
mod Loaded
mod Segments
mod Relocations
mod Tests
use orionis_os.Base.{
  ℕ, zero, suc, ◌+◌, ◌-◌, ◌*◌, ◌/◌, ◌%◌, ◌^◌, Bool, true, false, not, Option, none, some, List, [],
  ◌∷◌, ◌++◌, ltb, leb, ◌==◌, ◌&&◌, u32, u64, if◌then◌else◌,
}
use orionis_os.Base.Text.{codes}
use orionis_os.Limine.Memmap.{Outcome, done, panic, out_of_bounds, ◌>>=◌, Store, memmap_alloc_range}
use orionis_os.Limine.Part.{little_endian, has_bytes}

abbrev pub field : (ℕ → ℕ) → ℕ → ℕ → ℕ
field file place width = little_endian file place width

abbrev pub magic : List ℕ
magic = 0x7F ∷ codes "ELF"

abbrev pub arch_x86_64 : ℕ
arch_x86_64 = 0x3e

abbrev pub arch_x86_32 : ℕ
arch_x86_32 = 0x03

abbrev pub et_dyn : ℕ
et_dyn = 3

unfoldable pub elf_bits : (ℕ → ℕ) → Option ℕ
elf_bits file =
    if not (has_bytes file 0 magic)
    then none
    else if field file 18 2 == arch_x86_64
    then some 64
    else if field file 18 2 == arch_x86_32
    then some 32
    else none

-- The tests at the start of each loader.
unfoldable pub is_elf : ℕ → (ℕ → ℕ) → Bool
is_elf machine file = has_bytes file 0 magic && (file 5 == 1 && field file 18 2 == machine)

-- `fread` into memory, `memset` with 0, and the store of 64 bits.
abbrev pub copy_file : (ℕ → ℕ) → ℕ → ℕ → ℕ → (ℕ → ℕ) → ℕ → ℕ
copy_file file buf loc count mem a =
    if leb buf a && ltb a (buf + count) then file (loc + (a - buf)) else mem a

abbrev pub clear : ℕ → ℕ → (ℕ → ℕ) → ℕ → ℕ
clear ptr count mem a = if leb ptr a && ltb a (ptr + count) then 0 else mem a

abbrev pub store64 : ℕ → ℕ → (ℕ → ℕ) → ℕ → ℕ
store64 ptr v mem a = if leb ptr a && ltb a (ptr + 8) then v / 256 ^ (a - ptr) % 256 else mem a

-- One relocation, at a place of the file; `buffer` holds the bytes from `vaddr` on.
unfoldable pub relocate : (ℕ → ℕ) → ℕ → ℕ → ℕ → ℕ → ℕ → (ℕ → ℕ) → Bool × (ℕ → ℕ)
relocate file place buffer vaddr size slide mem =
    let r_addr = field file place 8 in
    if not (field file (place + 8) 4 == 8)
    then (false, mem)
    else if ltb r_addr vaddr
    then (true, mem)
    else if ltb (u64 (vaddr + size)) (u64 (r_addr + 8))
    then (true, mem)
    else (
      true,
      store64 (u32 (buffer + 2 ^ 64 - vaddr + r_addr)) (u64 (slide + field file (place + 16) 8))
          mem,
    )

-- The second step is taken when the first one has not failed.
abbrev pub and_then : Bool × (ℕ → ℕ) → ((ℕ → ℕ) → Bool × (ℕ → ℕ)) → Bool × (ℕ → ℕ)
and_then (true, mem) f = f mem
and_then (false, mem) f = (false, mem)

-- The relocations from a place on, `n` of them; each entry has 24 bytes.
pub relocations : ℕ → (ℕ → ℕ) → ℕ → ℕ → ℕ → ℕ → ℕ → (ℕ → ℕ) → Bool × (ℕ → ℕ)
relocations zero file place buffer vaddr size slide mem = (true, mem)
relocations (suc n) file place buffer vaddr size slide mem =
    and_then (relocate file place buffer vaddr size slide mem)
      (relocations n file (place + 24) buffer vaddr size slide)

-- What is done for one section, whose header is at a place.
pub relocate_section : (ℕ → ℕ) → ℕ → ℕ → ℕ → ℕ → ℕ → (ℕ → ℕ) → Bool × (ℕ → ℕ)
relocate_section file section buffer vaddr size slide mem =
    if not (field file (section + 4) 4 == 4)
    then (true, mem)
    else if not (field file (section + 56) 8 == 24)
    then (false, mem)
    else relocations ((field file (section + 32) 8 + 23) / 24) file (field file (section + 24) 8)
        buffer vaddr size slide mem

-- The sections from number `i` on, `n` of them.
pub relocate_sections : ℕ → ℕ → (ℕ → ℕ) → ℕ → ℕ → ℕ → ℕ → (ℕ → ℕ) → Bool × (ℕ → ℕ)
relocate_sections zero i file buffer vaddr size slide mem = (true, mem)
relocate_sections (suc n) i file buffer vaddr size slide mem =
    and_then (relocate_section file (field file 40 8 + i * 64) buffer vaddr size slide mem)
      (relocate_sections n (i + 1) file buffer vaddr size slide)

pub elf64_apply_relocations : (ℕ → ℕ) → ℕ → ℕ → ℕ → ℕ → (ℕ → ℕ) → Bool × (ℕ → ℕ)
elf64_apply_relocations file buffer vaddr size slide mem =
    if not (field file 16 2 == et_dyn)
    then (true, mem)
    else relocate_sections (field file 60 2) 0 file buffer vaddr size slide mem

-- Both functions `elf..._load_section`: the result, 0 for success, and memory. The names are the bytes of
-- the file from the string section on.
pub data Width : Type 0 where
  bits64 bits32 : Width

abbrev pub shdr_size : Width → ℕ
shdr_size bits64 = 64
shdr_size bits32 = 40

abbrev pub header : Width → (ℕ → ℕ) → ℕ × (ℕ × ℕ)
header bits64 file = (field file 40 8, (field file 60 2, field file 62 2))
header bits32 file = (field file 32 4, (field file 48 2, field file 50 2))

-- The address, the place in the file and the size of a section.
abbrev pub section_at : Width → (ℕ → ℕ) → ℕ → ℕ × (ℕ × ℕ)
section_at bits64 file p = (field file (p + 16) 8, (field file (p + 24) 8, field file (p + 32) 8))
section_at bits32 file p = (field file (p + 12) 4, (field file (p + 16) 4, field file (p + 20) 4))

pub read_section : Width → (ℕ → ℕ) → ℕ → ℕ → ℕ → ℕ → (ℕ → ℕ) → ℕ × (ℕ → ℕ)
read_section width file section buffer limit slide mem =
    let (addr, (offset, size)) = section_at width file section in
    let mem' = copy_file file buffer offset size mem in
    if ltb limit size then (3, mem) else if ltb size limit then (4, mem) else elim width [
      | bits32 ↦ (0, mem')
      | bits64 ↦
          let (fine, mem2) = elf64_apply_relocations file buffer addr size slide mem' in
          (if fine then 0 else 1, mem2)
    ]

pub find_section : ℕ → ℕ → Width → (ℕ → ℕ) → ℕ → List ℕ → ℕ → ℕ → ℕ → (ℕ → ℕ) → ℕ × (ℕ → ℕ)
find_section zero i width file names name buffer limit slide mem = (2, mem)
find_section (suc n) i width file names name buffer limit slide mem =
    let section = (header width file).0 + i * shdr_size width in
    let rest = find_section n (i + 1) width file names name buffer limit slide mem in
    if has_bytes file (names + field file section 4) (name ++ 0 ∷ [])
    then read_section width file section buffer limit slide mem
    else rest

load_section : Width → ℕ → (ℕ → ℕ) → List ℕ → ℕ → ℕ → ℕ → (ℕ → ℕ) → ℕ × (ℕ → ℕ)
load_section width machine file name buffer limit slide mem =
    let (shoff, (sh_num, shstrndx)) = header width file in
    let names = (section_at width file (shoff + shstrndx * shdr_size width)).1.0 in
    if not (is_elf machine file)
    then (1, mem)
    else find_section sh_num 0 width file names name buffer limit slide mem

pub elf64_load_section : (ℕ → ℕ) → List ℕ → ℕ → ℕ → ℕ → (ℕ → ℕ) → ℕ × (ℕ → ℕ)
elf64_load_section = load_section bits64 arch_x86_64

pub elf32_load_section : (ℕ → ℕ) → List ℕ → ℕ → ℕ → (ℕ → ℕ) → ℕ × (ℕ → ℕ)
elf32_load_section file name buffer limit = load_section bits32 arch_x86_32 file name buffer limit 0
