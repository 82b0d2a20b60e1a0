-- ===== src/Limine/Elf/Tests.antt =====
-- A file with one segment of 4 bytes, which takes 16 bytes in memory.
use orionis_os.Base.{ℕ, zero, suc, ◌≡◌, refl, arith, true, List, [], ◌∷◌, ◌++◌, get_or, some}
use orionis_os.Limine.Elf.{field, magic, is_elf, elf_bits}
use orionis_os.Limine.Elf.Load.{phdr64, load_address, elf64_load}
use orionis_os.Limine.Elf.Loaded.{segments, Starts, elf64_load-Starts}
use orionis_os.Limine.Memmap.{Store}
use orionis_os.Limine.Part.{little_endian, has_bytes}

abbrev zeros : ℕ → List ℕ
zeros zero = []
zeros (suc n) = 0 ∷ zeros n

abbrev long : ℕ → List ℕ
long n = n ∷ zeros 7

abbrev bytes : List ℕ
bytes =
    magic
    ++ (2 ∷ 1 ∷ zeros 10
        ++ (2 ∷ 0 ∷ 0x3e ∷ 0 ∷ 1 ∷ 0 ∷ 0 ∷ 0 ∷ long 0x77
            ++ (long 64
                ++ (zeros 16
                    ++ (1 ∷ 0 ∷ zeros 6
                        ++ (1 ∷ zeros 7
                            ++ (long 120
                                ++ (0 ∷ 0 ∷ 32 ∷ 128 ∷ 255 ∷ 255 ∷ 255 ∷ 255 ∷ []
                                    ++ (zeros 8
                                        ++ (long 4
                                            ++ (long 16
                                                ++ (zeros 8 ++ (9 ∷ 8 ∷ 7 ∷ 6 ∷ [])))))))))))))

abbrev file : ℕ → ℕ
file i = get_or bytes i 0

abbrev store : Store
store = record {
  memmap = record { base = 0x100000; length = 0x10000000; type = 1 } ∷ [];
  mem = λ a. 0xAA;
}

bits_run : elf_bits file ≡ some 64
unfolding elf_bits has_bytes little_endian
bits_run = refl

is_elf-file : is_elf 0x3e file ≡ true
unfolding is_elf has_bytes little_endian
is_elf-file = refl

elf64_load-Starts_example :
    Starts file 0x1001
      (segments 0 file (field file 56 2) 0)
      (field file 24 8)
      store
      (elf64_load file 0 0x1001 store)
unfolding little_endian phdr64 load_address
elf64_load-Starts_example =
    elf64_load-Starts file 0 0x1001 store is_elf-file (omega arith) ((omega arith, omega arith), tt)
      (tt, tt)
