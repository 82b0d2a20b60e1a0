-- ===== src/Limine/Bump.antt =====
-- The bump allocator at the end of limine/stage2/mm/pmm.c, for memory below 1 MiB. `size_t` has 32
-- bits, as the second stage runs in protected mode. `gdt` stands for the address that `sgdt` gives.
mod Laws
mod Tests
use orionis_os.Base.{ℕ, ◌+◌, ◌-◌, ◌*◌, ◌/◌, ◌%◌, ◌^◌, ltb, leb, ◌==◌, ◌&&◌, u32, if◌then◌else◌}
use orionis_os.Limine.Memmap.{Outcome, done, panic, zero_fill}

-- `bump_allocator_base`, `bump_allocator_limit` and the memory.
pub record Bump : Type 0 where
  pub base : ℕ
  pub limit : ℕ
  pub mem : ℕ → ℕ

pub conv_mem_rewind : ℕ → Bump → Bump
conv_mem_rewind count s = record s { base = u32 (s.base + 2 ^ 32 - count) }

abbrev pub limit_of : ℕ → Bump → ℕ
limit_of gdt s = if s.limit == 0 then gdt else s.limit

-- `ALIGN_UP` on a `size_t`.
abbrev pub aligned_up : ℕ → ℕ → ℕ
aligned_up x alignment = u32 (u32 (x + (alignment - 1)) / alignment * alignment)

unfoldable pub conv_mem_alloc_aligned : ℕ → ℕ → ℕ → Bump → Outcome (Bump × ℕ)
conv_mem_alloc_aligned gdt count alignment s =
    let ret = aligned_up s.base alignment in
    let new_base = u32 (ret + count) in
    if leb (limit_of gdt s) new_base
    then panic
    else done
        (record { base = new_base; limit = limit_of gdt s; mem = zero_fill ret count s.mem }, ret)

unfoldable pub conv_mem_alloc : ℕ → ℕ → Bump → Outcome (Bump × ℕ)
conv_mem_alloc gdt count = conv_mem_alloc_aligned gdt count 4
