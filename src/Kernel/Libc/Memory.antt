-- ===== src/Kernel/Libc/Memory.antt =====
-- `memmove`, `memcpy` and `memset`, byte by byte.
use orionis_os.Base.{
  ◌∙◌, ℕ, zero, suc, ◌+◌, ◌-◌, ◌≤◌, ◌≡◌, ◌⊎◌, inl, inr, Bool, arith, ltb, leb, ◌&&◌, Bool-cases, u8,
  store, if◌then◌else◌,
}
use orionis_os.Kernel.Libc.{copy_up, copy_down, memcpy, memmove, memset, memset_loop}

abbrev pub inside : ℕ → ℕ → ℕ → Bool
inside from n a = leb from a && ltb a (from + n)

copy_up_lem :
    (n i dest src : ℕ) (mem : ℕ → ℕ) (a : ℕ)
    → (dest ≤ src) ⊎ (src + i + n ≤ dest + i)
    → copy_up n i dest src mem a ≡ (if inside (dest + i) n a then mem (src + (a - dest)) else mem a)
unfolding copy_up
copy_up_lem zero i dest src mem a h = ground arith
copy_up_lem (suc n) i dest src mem a h =
    copy_up_lem n (i + 1) dest src (store mem (dest + i) (mem (src + i))) a (omega (arith, h))
    ∙ ground arith

copy_down_lem :
    (n dest src : ℕ) (mem : ℕ → ℕ) (a : ℕ)
    → src ≤ dest
    → copy_down n dest src mem a ≡ (if inside dest n a then mem (src + (a - dest)) else mem a)
unfolding copy_down
copy_down_lem zero dest src mem a h = ground arith
copy_down_lem (suc n) dest src mem a h =
    copy_down_lem n dest src (store mem (dest + n) (mem (src + n))) a h ∙ ground arith

-- `memmove` puts the old bytes from `src` on at `dest` and changes no others, also where the two
-- regions overlap.
pub memmove-lem :
    (dest src n : ℕ) (mem : ℕ → ℕ) (a : ℕ)
    → memmove dest src n mem a ≡ (if inside dest n a then mem (src + (a - dest)) else mem a)
unfolding memmove
memmove-lem dest src n mem a = elim (Bool-cases (ltb src dest)) [
  | inl below ↦ rw below (copy_down_lem n dest src mem a (ground (arith, below)))
  | inr above ↦
      rw above (copy_up_lem n 0 dest src mem a (inl (ground (arith, above))) ∙ ground arith)
]

-- `memcpy` does the same where the regions do not overlap, or `dest` lies below `src`.
pub memcpy-memmove :
    (dest src n : ℕ) (mem : ℕ → ℕ) (a : ℕ)
    → (dest ≤ src) ⊎ (src + n ≤ dest)
    → memcpy dest src n mem a ≡ memmove dest src n mem a
unfolding memcpy
memcpy-memmove dest src n mem a apart =
    copy_up_lem n 0 dest src mem a (ground (arith, apart))
    ∙ ground (arith, memmove-lem dest src n mem a)

memset_loop_lem :
    (n i s c : ℕ) (mem : ℕ → ℕ) (a : ℕ)
    → memset_loop n i s c mem a ≡ (if inside (s + i) n a then u8 c else mem a)
unfolding memset_loop
memset_loop_lem zero i s c mem a = ground arith
memset_loop_lem (suc n) i s c mem a =
    memset_loop_lem n (i + 1) s c (store mem (s + i) (u8 c)) a ∙ ground arith

-- `memset` fills its region with the low byte of `c` and changes no other byte.
pub memset-lem :
    (s c n : ℕ) (mem : ℕ → ℕ) (a : ℕ) → memset s c n mem a ≡ (if inside s n a then u8 c else mem a)
unfolding memset
memset-lem s c n mem a = memset_loop_lem n 0 s c mem a ∙ ground arith
