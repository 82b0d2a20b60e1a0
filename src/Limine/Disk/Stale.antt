-- ===== src/Limine/Disk/Stale.antt =====
-- The cache does not know which drive it is of.
use orionis_os.Base.{ℕ, ◌≡◌, ◌==◌, refl, true, arith}
use orionis_os.Limine.Disk.{Bios, Cache, cache_block}
use orionis_os.Limine.Memmap.{done}

-- When the cache holds a block of one drive, asking for the same block of any drive finds it and keeps
-- the first drive's bytes.
cache_block_other_drive :
    (bios : Bios) (other sector_size : ℕ) (c : Cache)
    → cache_block bios other c.cached_block sector_size c ≡ done c
unfolding cache_block
cache_block_other_drive bios other sector_size c =
    let same : (c.cached_block == c.cached_block) ≡ true = ground arith in rw same refl
