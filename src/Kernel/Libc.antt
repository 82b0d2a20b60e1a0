-- ===== src/Kernel/Libc.antt =====
-- The string and memory functions of lib/libc.cpp, over a memory of bytes. A pointer is an address,
-- and an object does not wrap round the end of the address space. `char` is signed. A loop that looks
-- for the end of a string takes fuel; `none` means that it ran out.
pub mod Memory
pub mod Strings
pub mod Compare
mod Tests
use orionis_os.Base.{
  ℕ, zero, suc, ◌+◌, ◌-◌, ◌%◌, Bool, Option, none, some, ltb, leb, ◌==◌, ◌&&◌, u8, store, ℤ, pos,
  negsuc, if◌then◌else◌,
}

pub toupper : ℕ → ℕ
toupper c = if leb b'a' c && leb c b'z' then c - 0x20 else c

pub tolower : ℕ → ℕ
tolower c = if leb b'A' c && leb c b'Z' then c + 0x20 else c

-- `c1 < c2` on two `char`s.
abbrev pub char_ltb : ℕ → ℕ → Bool
char_ltb c1 c2 = ltb ((c1 + 128) % 256) ((c2 + 128) % 256)

strcpy_loop : ℕ → ℕ → ℕ → ℕ → (ℕ → ℕ) → Option (ℕ → ℕ)
strcpy_loop zero i dest src mem = none
strcpy_loop (suc fuel) i dest src mem =
    let rest = strcpy_loop fuel (i + 1) dest src (store mem (dest + i) (mem (src + i))) in
    if mem (src + i) == 0 then some (store mem (dest + i) 0) else rest

pub strcpy : ℕ → ℕ → ℕ → (ℕ → ℕ) → Option (ℕ → ℕ)
strcpy fuel dest src mem = strcpy_loop fuel 0 dest src mem

-- `memset` on the bytes from index `i` on, `n` of them.
unfoldable pub memset_loop : ℕ → ℕ → ℕ → ℕ → (ℕ → ℕ) → ℕ → ℕ
memset_loop zero i s c mem = mem
memset_loop (suc n) i s c mem = memset_loop n (i + 1) s c (store mem (s + i) (u8 c))

unfoldable pub memset : ℕ → ℕ → ℕ → (ℕ → ℕ) → ℕ → ℕ
memset s c n mem = memset_loop n 0 s c mem

-- The first loop of `strncpy`, with the padding of the second one behind it; `n` is what is left.
strncpy_loop : ℕ → ℕ → ℕ → ℕ → (ℕ → ℕ) → ℕ → ℕ
strncpy_loop zero i dest src mem = mem
strncpy_loop (suc n) i dest src mem =
    let rest = strncpy_loop n (i + 1) dest src (store mem (dest + i) (mem (src + i))) in
    if mem (src + i) == 0 then memset_loop (suc n) i dest 0 mem else rest

pub strncpy : ℕ → ℕ → ℕ → (ℕ → ℕ) → ℕ → ℕ
strncpy dest src n mem = strncpy_loop n 0 dest src mem

unfoldable pub strcmp_loop : ℕ → ℕ → ℕ → ℕ → (ℕ → ℕ) → Option ℤ
strcmp_loop zero i s1 s2 mem = none
strcmp_loop (suc fuel) i s1 s2 mem =
    let rest = strcmp_loop fuel (i + 1) s1 s2 mem in
    let c1 = mem (s1 + i) in
    let c2 = mem (s2 + i) in
    if c1 == c2
    then (if c1 == 0 then some (pos 0) else rest)
    else some (if char_ltb c1 c2 then negsuc 0 else pos 1)

unfoldable pub strcmp : ℕ → ℕ → ℕ → (ℕ → ℕ) → Option ℤ
strcmp fuel s1 s2 mem = strcmp_loop fuel 0 s1 s2 mem

unfoldable pub strncmp_loop : ℕ → ℕ → ℕ → ℕ → (ℕ → ℕ) → ℤ
strncmp_loop zero i s1 s2 mem = pos 0
strncmp_loop (suc n) i s1 s2 mem =
    let rest = strncmp_loop n (i + 1) s1 s2 mem in
    let c1 = mem (s1 + i) in
    let c2 = mem (s2 + i) in
    if c1 == c2
    then (if c1 == 0 then pos 0 else rest)
    else (if char_ltb c1 c2 then negsuc 0 else pos 1)

unfoldable pub strncmp : ℕ → ℕ → ℕ → (ℕ → ℕ) → ℤ
strncmp s1 s2 n mem = strncmp_loop n 0 s1 s2 mem

unfoldable pub strlen_loop : ℕ → ℕ → ℕ → (ℕ → ℕ) → Option ℕ
strlen_loop zero len str mem = none
strlen_loop (suc fuel) len str mem =
    let rest = strlen_loop fuel (len + 1) str mem in if mem (str + len) == 0 then some len else rest

unfoldable pub strlen : ℕ → ℕ → (ℕ → ℕ) → Option ℕ
strlen fuel str mem = strlen_loop fuel 0 str mem

-- Copies from index `i` upwards, `n` bytes.
unfoldable pub copy_up : ℕ → ℕ → ℕ → ℕ → (ℕ → ℕ) → ℕ → ℕ
copy_up zero i dest src mem = mem
copy_up (suc n) i dest src mem = copy_up n (i + 1) dest src (store mem (dest + i) (mem (src + i)))

-- Copies below index `i`, downwards.
unfoldable pub copy_down : ℕ → ℕ → ℕ → (ℕ → ℕ) → ℕ → ℕ
copy_down zero dest src mem = mem
copy_down (suc i) dest src mem = copy_down i dest src (store mem (dest + i) (mem (src + i)))

unfoldable pub memcpy : ℕ → ℕ → ℕ → (ℕ → ℕ) → ℕ → ℕ
memcpy dest src n mem = copy_up n 0 dest src mem

unfoldable pub memmove : ℕ → ℕ → ℕ → (ℕ → ℕ) → ℕ → ℕ
memmove dest src n mem = if ltb src dest then copy_down n dest src mem else copy_up n 0 dest src mem
