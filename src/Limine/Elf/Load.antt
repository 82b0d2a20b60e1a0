-- ===== src/Limine/Elf/Load.antt =====
-- `elf64_load` and `elf32_load` of limine/stage2/lib/elf.c. `none` is the result -1; the numbers that
-- come with the store are the entry point and the top.
use orionis_os.Base.{
  ℕ, zero, suc, ◌+◌, ◌-◌, ◌*◌, ◌^◌, Option, none, some, not, ltb, leb, ◌==◌, u32, u64,
  if◌then◌else◌,
}
use orionis_os.Limine.Elf.{
  field, is_elf, arch_x86_64, arch_x86_32, et_dyn, copy_file, clear, elf64_apply_relocations,
}
use orionis_os.Limine.Memmap.{Outcome, done, panic, out_of_bounds, ◌>>=◌, Store, memmap_alloc_range}

abbrev pub pt_load : ℕ
pt_load = 1

abbrev pub fixed_higher_half_offset_64 : ℕ
fixed_higher_half_offset_64 = 0xffffffff80000000

-- The fields of a program header.
pub record Phdr : Type 0 where
  pub type : ℕ
  pub offset : ℕ
  pub vaddr : ℕ
  pub paddr : ℕ
  pub filesz : ℕ
  pub memsz : ℕ

unfoldable pub phdr64 : (ℕ → ℕ) → ℕ → Phdr
phdr64 file i =
    let p = field file 32 8 + i * 56 in
    record {
      type = field file p 4;
      offset = field file (p + 8) 8;
      vaddr = field file (p + 16) 8;
      paddr = field file (p + 24) 8;
      filesz = field file (p + 32) 8;
      memsz = field file (p + 40) 8;
    }

pub phdr32 : (ℕ → ℕ) → ℕ → Phdr
phdr32 file i =
    let p = field file 28 4 + i * 32 in
    record {
      type = field file p 4;
      offset = field file (p + 4) 4;
      vaddr = field file (p + 8) 4;
      paddr = field file (p + 12) 4;
      filesz = field file (p + 16) 4;
      memsz = field file (p + 20) 4;
    }

abbrev pub max : ℕ → ℕ → ℕ
max a b = if ltb b a then a else b

-- `load_vaddr`: addresses of the upper half are brought down.
unfoldable pub load_address : ℕ → ℕ → ℕ
load_address slide vaddr =
    let low =
      if leb (2 ^ 63) vaddr then u64 (vaddr + 2 ^ 64 - fixed_higher_half_offset_64) else vaddr in
    u64 (low + slide)

-- The `memset` behind the bytes from the file.
abbrev pub zero_rest : ℕ → ℕ → (ℕ → ℕ) → ℕ → ℕ
zero_rest ptr to_zero mem = if to_zero == 0 then mem else clear ptr to_zero mem

abbrev pub relocated : (ℕ → ℕ) → ℕ → Phdr → ℕ → Store → ℕ → Option (Store × ℕ)
relocated file at p slide s top =
    let (fine, mem) = elf64_apply_relocations file at p.vaddr (u32 p.memsz) slide s.mem in
    if fine then some (record s { mem = mem }, top) else none

unfoldable pub load_segment64 : (ℕ → ℕ) → ℕ → ℕ → Phdr → Store → ℕ → Outcome (Option (Store × ℕ))
load_segment64 file slide alloc_type p s top =
    let at = load_address slide p.vaddr in
    let filled = copy_file file (u32 at) p.offset p.filesz s.mem in
    let zeroed = zero_rest (u32 (at + p.filesz)) (u32 (p.memsz + 2 ^ 64 - p.filesz)) filled in
    let loaded = memmap_alloc_range (u32 at) (u32 p.memsz) alloc_type s.memmap >>= λ map. done (
      relocated file (u32 at) p slide (record { memmap = map; mem = zeroed })
        (max (u64 (at + p.memsz)) top)) in
    if not (p.type == pt_load) then done (some (s, top)) else loaded

-- A program header after another; a failure ends the run.
abbrev pub next_segment :
    Outcome (Option (Store × ℕ))
    → (Store → ℕ → Outcome (Option (Store × ℕ)))
    → Outcome (Option (Store × ℕ))
next_segment (done none) go = done none
next_segment (done (some (s, top))) go = go s top
next_segment panic go = panic
next_segment out_of_bounds go = out_of_bounds

-- The program headers from number `i` on, `n` of them.
unfoldable pub load_segments64 : ℕ → ℕ → (ℕ → ℕ) → ℕ → ℕ → Store → ℕ → Outcome (Option (Store × ℕ))
load_segments64 zero i file slide alloc_type s top = done (some (s, top))
load_segments64 (suc n) i file slide alloc_type s top =
    next_segment (load_segment64 file slide alloc_type (phdr64 file i) s top)
      (load_segments64 n (i + 1) file slide alloc_type)

abbrev pub with_entry : ℕ → Option (Store × ℕ) → Outcome (Option (Store × (ℕ × ℕ)))
with_entry entry none = done none
with_entry entry (some (s, top)) = done (some (s, (entry, top)))

unfoldable pub elf64_load : (ℕ → ℕ) → ℕ → ℕ → Store → Outcome (Option (Store × (ℕ × ℕ)))
elf64_load file slide alloc_type s =
    let entry = field file 24 8 in
    let entry_point = if field file 16 2 == et_dyn then u64 (entry + slide) else entry in
    if not (is_elf arch_x86_64 file)
    then done none
    else load_segments64 (field file 56 2) 0 file slide alloc_type s 0 >>= with_entry entry_point

-- The 32-bit loader clears the bytes behind the virtual address, not behind the physical one.
unfoldable pub load_segment32 : (ℕ → ℕ) → ℕ → Phdr → Store → ℕ → Outcome (Option (Store × ℕ))
load_segment32 file alloc_type p s top =
    let filled = copy_file file p.paddr p.offset p.filesz s.mem in
    let zeroed = zero_rest (u32 (p.vaddr + p.filesz)) (u32 (p.memsz + 2 ^ 32 - p.filesz)) filled in
    let loaded = memmap_alloc_range p.paddr p.memsz alloc_type s.memmap >>= λ map.
    done (some (record { memmap = map; mem = zeroed }, max (u32 (p.vaddr + p.memsz)) top)) in
    if not (p.type == pt_load) then done (some (s, top)) else loaded

pub load_segments32 : ℕ → ℕ → (ℕ → ℕ) → ℕ → Store → ℕ → Outcome (Option (Store × ℕ))
load_segments32 zero i file alloc_type s top = done (some (s, top))
load_segments32 (suc n) i file alloc_type s top =
    next_segment (load_segment32 file alloc_type (phdr32 file i) s top)
      (load_segments32 n (i + 1) file alloc_type)

pub elf32_load : (ℕ → ℕ) → ℕ → Store → Outcome (Option (Store × (ℕ × ℕ)))
elf32_load file alloc_type s =
    if not (is_elf arch_x86_32 file)
    then done none
    else load_segments32 (field file 44 2) 0 file alloc_type s 0 >>= with_entry (field file 24 4)
