-- ===== src/Kernel/Pic/Masks.antt =====
-- Which interrupts the controllers let through.
use orionis_os.Base.{
  ℕ, ◌<◌, ◌≡◌, refl, ap, Bool, true, false, List, [], ◌∷◌, arith, ◌==◌, not, u8, store, test_bit,
  clear_bit, test_bit-clear_bit, clear_bit-lt, IsBytes, if◌then◌else◌, Bool-cases, inl, inr, ltb,
}
use orionis_os.Kernel.Pic.{Write, mask_port, mask_bit, pic_unmask_irq}

-- What the ports show after a list of writes, where a mask port shows the byte last written to it.
pub after_writes : List Write → (ℕ → ℕ) → ℕ → ℕ
after_writes [] inb = inb
after_writes (w ∷ ws) inb = after_writes ws (store inb w.port w.byte)

-- The interrupt line is let through: its bit is clear.
abbrev pub is_enabled : (ℕ → ℕ) → ℕ → Bool
is_enabled inb irq = not (test_bit (inb (mask_port irq)) (mask_bit irq))

-- `pic_unmask_irq` lets its own line through and changes no other of the sixteen.
pub pic_unmask_irq-enabled :
    (inb : ℕ → ℕ) (irq k : ℕ)
    → IsBytes inb
    → irq < 16
    → k < 16
    → is_enabled (after_writes (pic_unmask_irq inb irq) inb) k
      ≡ (if k == irq then true else is_enabled inb k)
unfolding after_writes pic_unmask_irq
pic_unmask_irq-enabled inb irq k bytes h h' =
    let byte = inb (mask_port irq) in
    let bit =
      test_bit-clear_bit byte (mask_bit irq) (mask_bit k) (bytes (mask_port irq)) (ground arith)
        (ground arith) in
    let fits = clear_bit-lt byte (mask_bit irq) (bytes (mask_port irq)) (ground arith) in
    let same : u8 (clear_bit byte (mask_bit irq)) ≡ clear_bit byte (mask_bit irq) =
      omega (arith, fits) in
    let inside : ltb (mask_bit irq) 8 ≡ true = ground arith in
    rw (inside, same)
      (elim (Bool-cases (mask_port irq == mask_port k)) [
        | inl one_chip ↦
            let port : mask_port irq ≡ mask_port k = ground (arith, one_chip) in
            let shown : byte ≡ inb (mask_port k) = ap inb port in
            let line : (mask_bit k == mask_bit irq) ≡ (k == irq) = ground (arith, one_chip) in
            rw (one_chip, bit, line, shown)
              (elim (Bool-cases (k == irq)) [
                | inl itself ↦ rw itself refl
                | inr other ↦ rw other refl
              ])
        | inr two_chips ↦
            let line : (k == irq) ≡ false = ground (arith, two_chips) in rw (two_chips, line) refl
      ])
