-- ===== src/Kernel/Buddy/RoundTrip.antt =====
-- `buddy_free` undoes `buddy_alloc`.
use orionis_os.Base.{ℕ, ◌+◌, ◌^◌, ◌≤◌, ◌<◌, ◌≡◌, ap, sym, subst, ◌∙◌, some, arith, length}
use mathlib.Core.Option.{some-injective}
use orionis_os.Kernel.Buddy.{Buddy, get_order, buddy_alloc, buddy_free}
use orionis_os.Kernel.Buddy.Order.{IsOrderOf, by_order, pow_mono}
use orionis_os.Kernel.Buddy.Lists.{FreeLists, cover, Holds}
use orionis_os.Kernel.Buddy.Alloc.{Allocated, block, exhausted, buddy_alloc-Allocated}
use orionis_os.Kernel.Buddy.Free.{Enough, buddy_free-Released}

-- More rounds than any of the five lists has blocks.
fuel_for : FreeLists → ℕ
fuel_for l = 1 + length (l 12) + length (l 13) + length (l 14) + length (l 15) + length (l 16)

fuel_for-Enough : (l : FreeLists) → Enough (fuel_for l) l
unfolding fuel_for
fuel_for-Enough l =
    by_order (λ o. length (l o) < fuel_for l) (omega arith) (omega arith) (omega arith)
      (omega arith) (omega arith)

-- What was taken by `buddy_alloc` is free again, and nothing else, with the same count of pages.
pub record Restored (fuel size : ℕ) (s : Buddy) (l : FreeLists) (r : Buddy × ℕ) : Type 0 where
  pub state : Buddy
  pub lists : FreeLists
  pub returns : buddy_free fuel r.1 size r.0 ≡ some state
  pub holds : Holds state lists
  pub bytes : (a : ℕ) → cover lists a ≡ cover l a
  pub used : state.buddy_used_pages ≡ s.buddy_used_pages

restore :
    (size o : ℕ) {s : Buddy} {l : FreeLists} (r : Buddy × ℕ)
    → get_order size ≡ some o
    → IsOrderOf size o
    → s.buddy_used_pages < 2 ^ 64
    → 2 ^ 16 ≤ r.1
    → Allocated s l o r
    → (fuel : ℕ) × Restored fuel size s l r
restore size o r found is small high (exhausted all e) =
    absurd (omega (arith, ap (λ (q : Buddy × ℕ). q.1) e))
restore size o {s} {l} r found is small high (block l' le h loose bytes used managed) =
    let (s', e, l'', h', bytes', used', managed') =
      buddy_free-Released (fuel_for l') r.1 size o r.0 l' h found is.at_least le loose
        (fuel_for-Enough l') high in
    (
      fuel_for l',
      record {
        state = s';
        lists = l'';
        returns = e;
        holds = h';
        bytes = λ a. omega (arith, bytes a, bytes' a);
        used = omega (arith, used', used, pow_mono o 16 le);
      },
    )

-- A block that `buddy_alloc` returns at 2 ^ 16 or above can be given back with the same size: with
-- enough fuel `buddy_free` ends, exactly the bytes that were free before are free again, in lists
-- of aligned blocks that overlap nowhere, and `buddy_used_pages` is what it was.
pub buddy_free-alloc :
    (size : ℕ) (s : Buddy) (l : FreeLists) (r : Buddy × ℕ)
    → Holds s l
    → size ≤ 2 ^ 63
    → s.buddy_used_pages < 2 ^ 64
    → buddy_alloc size s ≡ some r
    → 2 ^ 16 ≤ r.1
    → (fuel : ℕ) × Restored fuel size s l r
buddy_free-alloc size s l r h fits small e high =
    let (o, r', found, is, e', a) = buddy_alloc-Allocated size s l h fits in
    let same : r' ≡ r = some-injective r' r (sym e' ∙ e) in
    restore size o r found is small high (subst (λ q. Allocated s l o q) same a)
