-- ===== src/Limine/Disk/Tests.antt =====
-- Reads from two drives of 64 sectors.
use orionis_os.Base.{ℕ, ◌+◌, ◌%◌, ◌≡◌, refl, leb, true, arith}
use orionis_os.Limine.Disk.{Bios, Cache, cache_invalid, read}
use orionis_os.Limine.Disk.Reading.{IsRead, read-IsRead}
use orionis_os.Limine.Memmap.{done}

abbrev drives : Bios
drives = record {
  bytes = λ drive i. (drive + i) % 256;
  bytes_per_sect = λ drive. 2;
  has_drive = λ drive. true;
  can_read = λ drive lba. leb (lba + 16) 64;
}

abbrev no_cache : Cache
no_cache = record { cached_block = cache_invalid; cache = λ i. 0 }

read-IsRead_example :
    (c' : Cache) × (mem' : ℕ → ℕ) × (read 40 drives 128 1000 30 40 no_cache (λ a. 0)
      ≡ done (c', mem'))
    × IsRead drives 128 1000 30 40 (λ a. 0) c' mem'
read-IsRead_example =
    read-IsRead drives 128 (omega arith) 40 1000 30 40 no_cache (λ a. 0) refl
      (λ block start end. ground (arith, start)) (omega arith) (omega arith)
      (λ i lt ne. absurd (ne refl))
