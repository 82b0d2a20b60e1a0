-- ===== src/Limine/Elf/Segments.antt =====
-- What stands in memory after `elf64_load` of a file that is not relocatable.
use orionis_os.Base.{
  ℕ, ◌+◌, ◌-◌, ◌^◌, ◌≤◌, ◌<◌, ◌≡◌, ◌⊎◌, ◌∙◌, inl, inr, arith, Bool-cases, ltb, leb, ◌==◌, ◌&&◌, u32,
  if◌then◌else◌,
}
use orionis_os.Limine.Elf.{copy_file}
use orionis_os.Limine.Elf.Load.{Phdr, load_address, zero_rest}

-- Where a segment lies in memory, and what is to stand there.
pub record Segment : Type 0 where
  pub base : ℕ
  pub offset : ℕ
  pub filesz : ℕ
  pub memsz : ℕ

abbrev pub segment_of : ℕ → Phdr → Segment
segment_of slide p = record {
  base = load_address slide p.vaddr;
  offset = p.offset;
  filesz = p.filesz;
  memsz = p.memsz;
}

abbrev pub Holds : Segment → ℕ → Type 0
Holds x a = (x.base ≤ a) × (a < x.base + x.memsz)

-- The segment ends below 4 GiB and has no more bytes in the file than in memory.
abbrev pub Fits : Segment → Type 0
Fits x = (x.base + x.memsz < 2 ^ 32) × (x.filesz ≤ x.memsz)

-- The bytes of the file, and zeros behind them.
pub record IsLoaded (file mem : ℕ → ℕ) (x : Segment) : Type 0 where
  pub copied : (k : ℕ) → k < x.filesz → mem (x.base + k) ≡ file (x.offset + k)
  pub cleared : (k : ℕ) → x.filesz ≤ k → k < x.memsz → mem (x.base + k) ≡ 0

abbrev pub filled : (ℕ → ℕ) → Segment → (ℕ → ℕ) → ℕ → ℕ
filled file x mem =
    zero_rest (u32 (x.base + x.filesz)) (u32 (x.memsz + 2 ^ 64 - x.filesz))
      (copy_file file (u32 x.base) x.offset x.filesz mem)

module _ (file mem : ℕ → ℕ) (x : Segment) (fits : Fits x) where
  words :
      (u32 x.base ≡ x.base)
      × (u32 (x.base + x.filesz) ≡ x.base + x.filesz)
      × (u32 (x.memsz + 2 ^ 64 - x.filesz) ≡ x.memsz - x.filesz)
  words = (omega (arith, fits), omega (arith, fits), omega (arith, fits))

  filled_lem :
      (a : ℕ)
      → filled file x mem a ≡ (
          if leb (x.base + x.filesz) a && ltb a (x.base + x.memsz)
          then 0
          else copy_file file x.base x.offset x.filesz mem a)
  filled_lem a =
      let (w1, w2, w3) = words in
      elim (Bool-cases (x.memsz - x.filesz == 0)) [
        | inl nothing ↦ rw (w1, w2, w3, nothing) (ground (arith, nothing, fits))
        | inr some_left ↦ rw (w1, w2, w3, some_left) (ground (arith, some_left, fits))
      ]

  pub filled-IsLoaded : IsLoaded file (filled file x mem) x
  filled-IsLoaded = record {
    copied = λ k lt.
        let same : x.base + k - x.base ≡ k = omega arith in
        filled_lem (x.base + k) ∙ ground (arith, lt, same);
    cleared = λ k low lt. filled_lem (x.base + k) ∙ ground (arith, low, lt);
  }

  pub filled-outside : (a : ℕ) → (a < x.base) ⊎ (x.base + x.memsz ≤ a) → filled file x mem a ≡ mem a
  filled-outside a out = filled_lem a ∙ ground (arith, out, fits)
