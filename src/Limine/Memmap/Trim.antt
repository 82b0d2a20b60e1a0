-- ===== src/Limine/Memmap/Trim.antt =====
-- One round of the inner loop of `sanitise_entries`: an entry is trimmed by another one.
use orionis_os.Base.{
  ℕ, ◌+◌, ◌-◌, ◌^◌, ◌≤◌, ◌<◌, ◌≡◌, refl, Bool, true, false, arith, ltb, leb, ◌&&◌, u64, Bool-cases,
  inl, inr, not,
}
use orionis_os.Limine.Memmap.{Entry, Outcome, done, panic, top_of, between, trim}

-- Byte `a` lies in the entry.
abbrev pub holds : Entry → ℕ → Bool
holds e a = between e.base (e.base + e.length) a

-- Entry `r` begins before `e` and ends no earlier.
abbrev pub encloses : Entry → Entry → Bool
encloses r e = ltb r.base e.base && leb (e.base + e.length) (r.base + r.length)

-- What is left of `e` once the bytes of `r` are taken out at one end.
pub record IsTrimmed (e r e' : Entry) : Type 0 where
  pub same_type : e'.type ≡ e.type
  pub sound : e'.base + e'.length < 2 ^ 64
  pub bytes : (a : ℕ) → holds e' a ≡ holds e a && not (holds r a)

-- What a round may give.
pub data Trimmed (e r : Entry) : Outcome Entry → Type 0 where
  kept : (e' : Entry) → IsTrimmed e r e' → Trimmed e r (done e')
  split_off : e.base ≤ r.base → r.base + r.length < e.base + e.length → Trimmed e r panic

module _ (e r : Entry) (wrap : e.base + e.length < 2 ^ 64)
    (wrap_r : r.base + r.length < 2 ^ 64) where
  top_e : top_of e ≡ e.base + e.length
  top_e = omega arith

  top_r : top_of r ≡ r.base + r.length
  top_r = omega arith

  -- A new end of `e`, where it leaves out just what `r` holds.
  trimmed :
      (b t : ℕ)
      → e.base ≤ b
      → b ≤ t
      → t ≤ e.base + e.length
      → ((a : ℕ) → (leb b a && ltb a t) ≡ holds e a && not (holds r a))
      → IsTrimmed e r (record e { base = b; length = u64 (t + 2 ^ 64 - b) })
  trimmed b t low le high bytes =
      let size : u64 (t + 2 ^ 64 - b) ≡ t - b = omega arith in
      let end : b + (t - b) ≡ t = omega arith in
      rw size (record { same_type = refl; sound = omega arith; bytes = λ a. rw end (bytes a) })

  -- For entries that are not empty and do not wrap round, where `r` does not begin before `e` and
  -- end behind it, a round of the loop takes exactly the bytes of `r` out of `e` and keeps the type,
  -- or panics where `r` begins in `e` and ends before its end.
  pub trim-Trimmed : 0 < e.length → 0 < r.length → encloses r e ≡ false → Trimmed e r (trim e r)
  unfolding trim
  trim-Trimmed some_e some_r open_end =
      elim (Bool-cases (between e.base (e.base + e.length) r.base)) [
        | inl starts ↦ elim (Bool-cases (between e.base (e.base + e.length) (r.base + r.length))) [
          | inl ends ↦ rw (top_e, top_r, starts, ends) (split_off (ground arith) (ground arith))
          | inr outside ↦
              let no_end : between e.base r.base (r.base + r.length) ≡ false = ground arith in
              rw (top_e, top_r, starts, outside, no_end)
                (kept _ (
                  trimmed e.base r.base (omega arith) (ground arith) (ground arith)
                    (λ a. ground arith)))
        ]
        | inr before ↦ elim (Bool-cases (between e.base (e.base + e.length) (r.base + r.length))) [
          | inl ends ↦
              rw (top_e, top_r, before, ends)
                (kept _ (
                  trimmed (r.base + r.length) (e.base + e.length) (ground arith) (ground arith)
                    (omega arith) (λ a. ground arith)))
          | inr outside ↦
              rw (top_e, top_r, before, outside)
                (kept _ (
                  trimmed e.base (e.base + e.length) (omega arith) (omega arith) (omega arith)
                    (λ a. ground arith)))
        ]
      ]

  -- Where `r` begins before `e` and ends behind it, or with it, a round of the loop leaves `e` as it
  -- is, although every byte of it lies in `r`.
  pub trim_enclosed :
      encloses r e ≡ true → (trim e r ≡ done e) × ((a : ℕ) → holds e a ≡ true → holds r a ≡ true)
  unfolding trim
  trim_enclosed inside =
      let before : between e.base (e.base + e.length) r.base ≡ false = ground arith in
      let outside : between e.base (e.base + e.length) (r.base + r.length) ≡ false = ground arith in
      let size : u64 (e.base + e.length + 2 ^ 64 - e.base) ≡ e.length = omega arith in
      (rw (top_e, top_r, before, outside, size) refl, λ a h. ground arith)
