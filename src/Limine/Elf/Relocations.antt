-- ===== src/Limine/Elf/Relocations.antt =====
-- What one relocation leaves in memory, and what the 32-bit loader does not clear.
use orionis_os.Base.{
  List, some, ℕ, ◌+◌, ◌-◌, ◌^◌, ◌≤◌, ◌<◌, ◌≡◌, ◌⊎◌, refl, arith, true, false, ltb, leb, ◌==◌, ◌&&◌,
  u32, u64,
}
use orionis_os.Limine.Elf.{copy_file, field, store64, relocate}
use orionis_os.Limine.Elf.Load.{Phdr, pt_load, zero_rest, load_segment32, max}
use orionis_os.Limine.Memmap.{Entry, done, Store, memmap_alloc_range}
use orionis_os.Limine.Part.Bytes.{HasNumber}

-- A relative relocation whose 8 bytes lie between `vaddr` and the end of the buffer puts the slide and
-- its addend there, and changes no other byte. Addresses do not wrap.
pub relocate-HasNumber :
    (file : ℕ → ℕ) (place buffer vaddr size slide : ℕ) (mem : ℕ → ℕ)
    → field file (place + 8) 4 ≡ 8
    → vaddr ≤ field file place 8
    → field file place 8 + 8 ≤ vaddr + size
    → vaddr + size < 2 ^ 64
    → buffer + size < 2 ^ 32
    → (mem' : ℕ → ℕ) × (relocate file place buffer vaddr size slide mem ≡ (true, mem'))
      × HasNumber mem'
          (buffer + (field file place 8 - vaddr))
          8
          (u64 (slide + field file (place + 16) 8))
      × ((a : ℕ)
          → (a < buffer + (field file place 8 - vaddr))
            ⊎ (buffer + (field file place 8 - vaddr) + 8 ≤ a)
          → mem' a ≡ mem a)
unfolding relocate
relocate-HasNumber file place buffer vaddr size slide mem relative low high fits room =
    let known : (field file (place + 8) 4 == 8) ≡ true = ground (arith, relative) in
    let before : ltb (field file place 8) vaddr ≡ false = ground (arith, low) in
    let behind : ltb (u64 (vaddr + size)) (u64 (field file place 8 + 8)) ≡ false =
      ground (arith, high, fits) in
    let ptr : u32 (buffer + 2 ^ 64 - vaddr + field file place 8)
        ≡ buffer + (field file place 8 - vaddr) =
      omega (arith, low, high, fits, room) in
    let v = u64 (slide + field file (place + 16) 8) in
    let p = buffer + (field file place 8 - vaddr) in
    (
      store64 p v mem,
      rw (relocate, known, before, behind, ptr) refl,
      (
        omega arith,
        λ i lt.
            let here : (leb p (p + i) && ltb (p + i) (p + 8)) ≡ true = ground (arith, lt) in
            let at : p + i - p ≡ i = omega arith in rw (here, at) refl,
      ),
      λ a out. let off : (leb p a && ltb a (p + 8)) ≡ false = ground (arith, out) in rw off refl,
    )

-- `load_segment32` leaves the bytes behind those from the file as they were, where its virtual addresses
-- lie elsewhere.
pub load_segment32_rest :
    (file : ℕ → ℕ) (alloc_type : ℕ) (p : Phdr) (s : Store) (top : ℕ) (map : List Entry)
    → p.type ≡ pt_load
    → p.filesz < p.memsz
    → p.memsz < 2 ^ 32
    → p.vaddr + p.memsz < 2 ^ 32
    → (p.vaddr + p.memsz ≤ p.paddr) ⊎ (p.paddr + p.memsz ≤ p.vaddr)
    → memmap_alloc_range p.paddr p.memsz alloc_type s.memmap ≡ done map
    → (s' : Store) × (top' : ℕ) × (load_segment32 file alloc_type p s top ≡ done (some (s', top')))
      × ((k : ℕ) → p.filesz ≤ k → k < p.memsz → s'.mem (p.paddr + k) ≡ s.mem (p.paddr + k))
unfolding load_segment32
load_segment32_rest file alloc_type p s top map kind more small fits apart allocated =
    let load : (p.type == pt_load) ≡ true = ground (arith, kind) in
    let to_zero : u32 (p.memsz + 2 ^ 32 - p.filesz) ≡ p.memsz - p.filesz =
      omega (arith, more, small) in
    let ptr : u32 (p.vaddr + p.filesz) ≡ p.vaddr + p.filesz = omega (arith, more, fits) in
    let some_left : (p.memsz - p.filesz == 0) ≡ false = ground (arith, more) in
    (
      record {
        memmap = map;
        mem =
            zero_rest (p.vaddr + p.filesz) (p.memsz - p.filesz)
              (copy_file file p.paddr p.offset p.filesz s.mem);
      },
      max (u32 (p.vaddr + p.memsz)) top,
      rw (load_segment32, load, allocated, ptr, to_zero) refl,
      λ k low lt.
          let a = p.paddr + k in
          let uncleared : (leb (p.vaddr + p.filesz) a
                && ltb a (p.vaddr + p.filesz + (p.memsz - p.filesz)))
              ≡ false =
            ground (arith, low, lt, apart) in
          let uncopied : (leb p.paddr a && ltb a (p.paddr + p.filesz)) ≡ false =
            ground (arith, low) in
          rw (some_left, uncleared, uncopied) refl,
    )
