-- ===== src/Limine/Part/Index.antt =====
-- `part_create_index` of limine/stage2/lib/part.c: the partitions of the BIOS drives in an array. The
-- array lies where the bump allocator puts it; `parts` shows the structures that memory holds, by their
-- address. A drive that the BIOS does not know is `none`. The buffers of the disk driver are taken as
-- there, and the messages are left out. `out_of_bounds` is a store behind the array, or that the fuel ran
-- out.
pub mod Filling
use orionis_os.Base.{
  ℕ, zero, suc, ◌+◌, ◌*◌, Option, none, some, ltb, leb, ◌==◌, ◌&&◌, u32, if◌then◌else◌,
}
use orionis_os.Limine.Bump.{Bump, conv_mem_alloc}
use orionis_os.Limine.Memmap.{Outcome, done, panic, out_of_bounds, ◌>>=◌}
use orionis_os.Limine.Part.{Part, found, no_partition, end_of_table, get_part}

pub record Index : Type 0 where
  pub bump : Bump
  pub part_index : ℕ
  pub part_index_i : ℕ
  pub parts : ℕ → Option Part
  -- How many structures the array has room for.
  pub room : ℕ

-- `sizeof(struct part)`.
abbrev pub part_size : ℕ
part_size = 32

-- The partitions from the number `part` on, `n` having been counted.
pub count_loop : ℕ → (ℕ → ℕ) → ℕ → ℕ → Outcome ℕ
count_loop zero disk part n = out_of_bounds
count_loop (suc fuel) disk part n = elim (get_part disk part) [
  | end_of_table ↦ done n
  | no_partition ↦ count_loop fuel disk (part + 1) n
  | found p ↦ count_loop fuel disk (part + 1) (n + 1)
]

-- `part_index[part_index_i++] = p`. A store behind the array is `out_of_bounds`: the memory there is in
-- other use.
abbrev pub stored : Part → Index → Index
stored p s = record s {
  part_index_i = s.part_index_i + 1;
  parts = λ a. if a == s.part_index + part_size * s.part_index_i then some p else s.parts a;
}

unfoldable pub put : Part → Index → Outcome Index
put p s = if ltb s.part_index_i s.room then done (stored p s) else out_of_bounds

pub fill_loop : ℕ → (ℕ → ℕ) → ℕ → Index → Outcome Index
fill_loop zero disk part s = out_of_bounds
fill_loop (suc fuel) disk part s = elim (get_part disk part) [
  | end_of_table ↦ done s
  | no_partition ↦ fill_loop fuel disk (part + 1) s
  | found p ↦ put p s >>= fill_loop fuel disk (part + 1)
]

-- The allocator clears the bytes that it hands out.
abbrev pub with_array : ℕ → Bump × ℕ → Index → Index
with_array n (bump, place) s = record s {
  bump = bump;
  part_index = place;
  parts = λ a. if leb place a && ltb a (place + part_size * n) then none else s.parts a;
  room = n;
}

pub index_drive : ℕ → ℕ → (ℕ → ℕ) → Index → Outcome Index
index_drive fuel gdt disk s = count_loop fuel disk 0 0 >>= λ n.
    conv_mem_alloc gdt (u32 (part_size * n)) s.bump >>= λ allocated.
    fill_loop fuel disk 0 (with_array n allocated s)

-- The drives from `drive` on, `n` of them.
pub index_drives : ℕ → ℕ → ℕ → (ℕ → Option (ℕ → ℕ)) → ℕ → Index → Outcome Index
index_drives zero fuel gdt drives drive s = done s
index_drives (suc n) fuel gdt drives drive s = elim (drives drive) [
  | none ↦ index_drives n fuel gdt drives (drive + 1) s
  | some disk ↦ index_drive fuel gdt disk s >>= λ s'. index_drives n fuel gdt drives (drive + 1) s'
]

pub part_create_index : ℕ → ℕ → (ℕ → Option (ℕ → ℕ)) → Index → Outcome Index
part_create_index fuel gdt drives s = conv_mem_alloc gdt 0 s.bump >>= λ allocated.
    index_drives 15 fuel gdt drives 0x80 (with_array 0 allocated s)
