-- ===== src/Limine/Bump/Laws.antt =====
-- What an allocation of the bump allocator gives.
use orionis_os.Base.{
  ℕ, ◌+◌, ◌-◌, ◌%◌, ◌^◌, ◌≤◌, ◌<◌, ◌≡◌, ◌⊎◌, refl, false, arith, leb, u32, Bool-cases, inl, inr,
}
use orionis_os.Limine.Memmap.{Outcome, done, panic, zero_fill}
use orionis_os.Limine.Bump.{Bump, limit_of, aligned_up, conv_mem_alloc_aligned, conv_mem_alloc}

-- The memory from `ret` on that an allocation of `count` bytes hands out.
pub record IsBumped (gdt count : ℕ) (s s' : Bump) (ret : ℕ) : Type 0 where
  pub fresh : s.base ≤ ret
  pub word : ret % 4 ≡ 0
  pub tight : ret < s.base + 4
  pub next : s'.base ≡ ret + count
  pub below_limit : s'.base < limit_of gdt s
  pub same_limit : limit_of gdt s' ≡ limit_of gdt s
  pub cleared : (a : ℕ) → ret ≤ a → a < ret + count → s'.mem a ≡ 0
  pub kept : (a : ℕ) → (a < ret) ⊎ (ret + count ≤ a) → s'.mem a ≡ s.mem a

pub data Bumped (gdt count : ℕ) (s : Bump) : Outcome (Bump × ℕ) → Type 0 where
  allocated :
      (s' : Bump) (ret : ℕ) → IsBumped gdt count s s' ret → Bumped gdt count s (done (s', ret))
  exhausted : limit_of gdt s < s.base + count + 4 → Bumped gdt count s panic

aligned_four :
    (x : ℕ)
    → x + 4 < 2 ^ 32
    → (aligned_up x 4 % 4 ≡ 0) × (x ≤ aligned_up x 4) × (aligned_up x 4 < x + 4)
aligned_four x h = (omega arith, omega arith, omega arith)

-- Where the end of the request stays below 2 ^ 32, `conv_mem_alloc` returns the first aligned
-- address behind what it has given out, with the memory from there cleared, all other memory kept and
-- the new end below the limit, or it panics with the request over the limit.
pub conv_mem_alloc-Bumped :
    (gdt count : ℕ) (s : Bump)
    → s.base + count + 4 < 2 ^ 32
    → Bumped gdt count s (conv_mem_alloc gdt count s)
unfolding conv_mem_alloc conv_mem_alloc_aligned zero_fill
conv_mem_alloc-Bumped gdt count s h =
    let (word, low, near) = aligned_four s.base (omega arith) in
    let end : u32 (aligned_up s.base 4 + count) ≡ aligned_up s.base 4 + count = omega arith in
    elim (Bool-cases (leb (limit_of gdt s) (u32 (aligned_up s.base 4 + count)))) [
      | inl full ↦ rw full (exhausted (ground arith))
      | inr room ↦ rw room (
          allocated _ _ (record {
            fresh = low;
            word = word;
            tight = near;
            next = end;
            below_limit = ground arith;
            same_limit = ground arith;
            cleared = λ a from to. ground arith;
            kept = λ a out. ground arith;
          }))
    ]

-- A request that wraps round 2 ^ 32 passes the test against the limit: memory below the base is
-- given out again.
pub conv_mem_alloc_wraps :
    (gdt count : ℕ) (s : Bump)
    → s.base % 4 ≡ 0
    → s.base < 2 ^ 32
    → count < 2 ^ 32
    → 2 ^ 32 ≤ s.base + count
    → s.base + count < 2 ^ 32 + limit_of gdt s
    → (s' : Bump) × (conv_mem_alloc gdt count s ≡ done (s', s.base)) × (s'.base < s.base)
unfolding conv_mem_alloc conv_mem_alloc_aligned
conv_mem_alloc_wraps gdt count s word small count_small wraps under =
    let here : aligned_up s.base 4 ≡ s.base = omega arith in
    let end : u32 (s.base + count) ≡ s.base + count - 2 ^ 32 = omega arith in
    let passes : leb (limit_of gdt s) (s.base + count - 2 ^ 32) ≡ false = ground arith in
    rw (here, end, passes) (_, refl, omega arith)
