-- ===== src/Limine/Disk.antt =====
-- Reading from a disk: `cache_block`, `read` and `read_partition` of limine/stage2/drivers/disk.c. The
-- BIOS is a parameter. The buffers of the driver, which it allocates once, are taken as there.
mod Reading
mod Stale
mod Tests
use orionis_os.Base.{
  ℕ, zero, suc, ◌+◌, ◌-◌, ◌*◌, ◌/◌, ◌%◌, ◌^◌, Bool, ltb, leb, ◌==◌, ◌&&◌, not, u64, if◌then◌else◌,
}
use orionis_os.Limine.Memmap.{Outcome, done, panic, out_of_bounds, ◌>>=◌}

-- What interrupt 0x13 gives: the bytes of each drive, the bytes in a sector, and whether the calls for
-- the drive's parameters and for the sectors from a number on succeed.
pub record Bios : Type 0 where
  pub bytes : ℕ → ℕ → ℕ
  pub bytes_per_sect : ℕ → ℕ
  pub has_drive : ℕ → Bool
  pub can_read : ℕ → ℕ → Bool

abbrev pub cache_invalid : ℕ
cache_invalid = 2 ^ 64 - 1

pub record Cache : Type 0 where
  pub cached_block : ℕ
  pub cache : ℕ → ℕ

abbrev pub block_size : ℕ → ℕ
block_size sector_size = sector_size * 16

pub cache_block : Bios → ℕ → ℕ → ℕ → Cache → Outcome Cache
cache_block bios drive block sector_size c =
    if block == c.cached_block
    then done c
    else if not (bios.can_read drive (block * 16))
    then panic
    else done (record {
      cached_block = block;
      cache = λ i.
          if ltb i (block_size sector_size)
          then bios.bytes drive (block * 16 * sector_size + i)
          else c.cache i;
    })

-- `memcpy` out of the cache into memory.
abbrev pub copy_in : ℕ → ℕ → ℕ → (ℕ → ℕ) → (ℕ → ℕ) → ℕ → ℕ
copy_in dest offset chunk cache mem a =
    if leb dest a && ltb a (dest + chunk) then cache (offset + (a - dest)) else mem a

abbrev pub chunk_of : ℕ → ℕ → ℕ → ℕ
chunk_of left size offset = if ltb (size - offset) left then size - offset else left

-- The loop of `read`, from `progress` on. `out_of_bounds` means that the fuel ran out.
pub read_loop : ℕ → Bios → ℕ → ℕ → ℕ → ℕ → ℕ → ℕ → Cache → (ℕ → ℕ) → Outcome (Cache × (ℕ → ℕ))
read_loop zero bios drive sector_size buffer loc count progress c mem =
    if ltb progress count then out_of_bounds else done (c, mem)
read_loop (suc fuel) bios drive sector_size buffer loc count progress c mem =
    let at = u64 (loc + progress) in
    let size = block_size sector_size in
    let chunk = chunk_of (count - progress) size (at % size) in
    let rest = cache_block bios drive (at / size) sector_size c >>= λ c'.
    read_loop fuel bios drive sector_size buffer loc count (progress + chunk) c'
      (copy_in (buffer + progress) (at % size) chunk c'.cache mem) in
    if ltb progress count then rest else done (c, mem)

pub read : ℕ → Bios → ℕ → ℕ → ℕ → ℕ → Cache → (ℕ → ℕ) → Outcome (Cache × (ℕ → ℕ))
read fuel bios drive buffer loc count c mem =
    if bios.has_drive drive
    then read_loop fuel bios drive (bios.bytes_per_sect drive) buffer loc count 0 c mem
    else panic

pub read_partition : ℕ → Bios → ℕ → ℕ → ℕ → ℕ → ℕ → Cache → (ℕ → ℕ) → Outcome (Cache × (ℕ → ℕ))
read_partition fuel bios drive first_sect buffer loc count c mem =
    read fuel bios drive buffer (u64 (loc + u64 (first_sect * 512))) count c mem
