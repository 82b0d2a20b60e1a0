-- ===== src/Kernel/Pmm/Passes.antt =====
-- The loops of `init_pmm`: what a test of the bitmap sees after each, and what they leave alone.
use orionis_os.Base.{
  ℕ, zero, suc, ◌+◌, ◌/◌, ◌%◌, ◌^◌, ◌<◌, ◌≡◌, refl, Bool, true, false, not, arith, ltb, leb, ◌==◌,
  ◌&&◌, ◌||◌, if◌then◌else◌, Bool-cases, inl, inr, ◌∙◌, List, [], ◌∷◌, IsBytes, store,
  test_bit_full,
}
use orionis_os.Kernel.Pmm.{
  Pmm, MmapEntry, page_size, pmm_bitmap_test, pmm_bitmap_set, pmm_bitmap_clear, bitmap_bytes,
  mark_all_used, clear_pages, clear_usable, set_pages, bitmap_pages,
}
use orionis_os.Kernel.Pmm.Bitmap.{
  pmm_bitmap_test-set, pmm_bitmap_test-clear, pmm_bitmap_set-IsBytes, pmm_bitmap_clear-IsBytes,
}

-- The entry ends inside the address space.
abbrev pub Fits : MmapEntry → Type 0
Fits e = e.base + e.length < 2 ^ 64

-- Page `i` is one of the whole pages of a usable entry.
unfoldable pub in_usable : ℕ → List MmapEntry → Bool
in_usable i [] = false
in_usable i (e ∷ es) =
    (e.type == 1
      && (leb (e.base / page_size) i && ltb i (e.base / page_size + e.length / page_size)))
    || in_usable i es

-- Page `i` holds a part of the bitmap of `s`.
unfoldable pub in_bitmap : ℕ → Pmm → Bool
in_bitmap i s =
    leb (s.pmm_bitmap / page_size) i
    && ltb i (s.pmm_bitmap / page_size + bitmap_pages (bitmap_bytes s.total_pages))

-- Everything but the memory stays.
pub record SameFrame (s t : Pmm) : Type 0 where
  pub bitmap : t.pmm_bitmap ≡ s.pmm_bitmap
  pub total : t.total_pages ≡ s.total_pages
  pub last : t.last_checked_page ≡ s.last_checked_page
  pub bytes : IsBytes s.mem → IsBytes t.mem

mark_all_used-mem :
    (n i : ℕ) (s : Pmm) (a : ℕ)
    → (mark_all_used n i s).mem a
      ≡ (if leb (s.pmm_bitmap + i) a && ltb a (s.pmm_bitmap + i + n) then 255 else s.mem a)
unfolding mark_all_used
mark_all_used-mem zero i s a = ground arith
mark_all_used-mem (suc n) i s a =
    ground (
      arith,
      mark_all_used-mem n (i + 1) (record s { mem = store s.mem (s.pmm_bitmap + i) 0xff }) a,
    )

pub mark_all_used-SameFrame : (n i : ℕ) (s : Pmm) → SameFrame s (mark_all_used n i s)
unfolding mark_all_used
mark_all_used-SameFrame zero i s = record {
  bitmap = refl;
  total = refl;
  last = refl;
  bytes = λ b. b;
}
mark_all_used-SameFrame (suc n) i s =
    let r =
      mark_all_used-SameFrame n (i + 1) (record s { mem = store s.mem (s.pmm_bitmap + i) 0xff }) in
    record {
      bitmap = r.bitmap;
      total = r.total;
      last = r.last;
      bytes = λ b. r.bytes (λ a. ground (arith, b a));
    }

pub SameFrame-trans : {s t u : Pmm} → SameFrame s t → SameFrame t u → SameFrame s u
SameFrame-trans p q = record {
  bitmap = q.bitmap ∙ p.bitmap;
  total = q.total ∙ p.total;
  last = q.last ∙ p.last;
  bytes = λ b. q.bytes (p.bytes b);
}

pub clear-SameFrame : (i : ℕ) (s : Pmm) → SameFrame s (pmm_bitmap_clear i s)
unfolding pmm_bitmap_clear
clear-SameFrame i s = record {
  bitmap = refl;
  total = refl;
  last = refl;
  bytes = pmm_bitmap_clear-IsBytes i s;
}

pub set-SameFrame : (i : ℕ) (s : Pmm) → SameFrame s (pmm_bitmap_set i s)
unfolding pmm_bitmap_set
set-SameFrame i s = record {
  bitmap = refl;
  total = refl;
  last = refl;
  bytes = pmm_bitmap_set-IsBytes i s;
}

SameFrame-refl : (s : Pmm) → SameFrame s s
SameFrame-refl s = record { bitmap = refl; total = refl; last = refl; bytes = λ b. b }

pub clear_pages-SameFrame : (n i : ℕ) (s : Pmm) → SameFrame s (clear_pages n i s)
unfolding clear_pages
clear_pages-SameFrame zero i s = SameFrame-refl s
clear_pages-SameFrame (suc n) i s =
    SameFrame-trans (clear-SameFrame i s) (clear_pages-SameFrame n (i + 1) (pmm_bitmap_clear i s))

pub set_pages-SameFrame : (n i : ℕ) (s : Pmm) → SameFrame s (set_pages n i s)
unfolding set_pages
set_pages-SameFrame zero i s = SameFrame-refl s
set_pages-SameFrame (suc n) i s =
    SameFrame-trans (set-SameFrame i s) (set_pages-SameFrame n (i + 1) (pmm_bitmap_set i s))

pub clear_pages-test :
    (n i j : ℕ) (s : Pmm)
    → IsBytes s.mem
    → pmm_bitmap_test j (clear_pages n i s)
      ≡ (if leb i j && ltb j (i + n) then false else pmm_bitmap_test j s)
unfolding clear_pages
clear_pages-test zero i j s b = ground arith
clear_pages-test (suc n) i j s b = ground (
  arith,
  clear_pages-test n (i + 1) j (pmm_bitmap_clear i s) (pmm_bitmap_clear-IsBytes i s b),
  pmm_bitmap_test-clear i j s b,
)

pub set_pages-test :
    (n i j : ℕ) (s : Pmm)
    → IsBytes s.mem
    → pmm_bitmap_test j (set_pages n i s)
      ≡ (if leb i j && ltb j (i + n) then true else pmm_bitmap_test j s)
unfolding set_pages
set_pages-test zero i j s b = ground arith
set_pages-test (suc n) i j s b = ground (
  arith,
  set_pages-test n (i + 1) j (pmm_bitmap_set i s) (pmm_bitmap_set-IsBytes i s b),
  pmm_bitmap_test-set i j s b,
)

pub clear_usable-SameFrame : (es : List MmapEntry) (s : Pmm) → SameFrame s (clear_usable es s)
unfolding clear_usable
clear_usable-SameFrame [] s = SameFrame-refl s
clear_usable-SameFrame (e ∷ es) s = elim (Bool-cases (e.type == 1)) [
  | inl usable ↦ rw usable (
      SameFrame-trans (clear_pages-SameFrame (e.length / page_size) (e.base / page_size) s)
        (clear_usable-SameFrame es _))
  | inr other ↦ rw other (clear_usable-SameFrame es s)
]

pub clear_usable-test :
    (es : List MmapEntry) (j : ℕ) (s : Pmm)
    → IsBytes s.mem
    → pmm_bitmap_test j (clear_usable es s) ≡ (not (in_usable j es) && pmm_bitmap_test j s)
unfolding clear_usable in_usable
clear_usable-test [] j s b = refl
clear_usable-test (e ∷ es) j s b = elim (Bool-cases (e.type == 1)) [
  | inl usable ↦ rw usable (
      ground (
        arith,
        clear_usable-test es j (clear_pages (e.length / page_size) (e.base / page_size) s)
            ((clear_pages-SameFrame (e.length / page_size) (e.base / page_size) s).bytes b),
        clear_pages-test (e.length / page_size) (e.base / page_size) j s b,
      ))
  | inr other ↦ rw other (clear_usable-test es j s b)
]

pub mark_all_used-test :
    (n j : ℕ) (s : Pmm) → j / 8 < n → pmm_bitmap_test j (mark_all_used n 0 s) ≡ true
unfolding pmm_bitmap_test
mark_all_used-test n j s lt =
    rw ((mark_all_used-SameFrame n 0 s).bitmap) (rw (byte) (test_bit_full (j % 8) (omega arith)))
  where
    byte : (mark_all_used n 0 s).mem (s.pmm_bitmap + j / 8) ≡ 255
    byte = ground (arith, mark_all_used-mem n 0 s (s.pmm_bitmap + j / 8))
