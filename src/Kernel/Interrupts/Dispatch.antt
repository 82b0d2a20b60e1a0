-- ===== src/Kernel/Interrupts/Dispatch.antt =====
-- Every hardware interrupt is acknowledged once, at the end, and every exception stops the kernel.
use orionis_os.Base.{
  ◌∙◌, ap, sym, Bool-cases, inl, inr, ℕ, ◌-◌, ◌≤◌, ◌<◌, ◌≡◌, refl, true, false, some, List, [], ◌∷◌,
  ◌++◌, arith, ltb, leb, if◌then◌else◌,
}
use mathlib.Core.List.{append_assoc}
use orionis_os.Kernel.Pic.{Write, outb, pic_send_eoi}
use orionis_os.Kernel.Interrupts.{
  Machine, Effect, shell, port, e1000_handle_interrupt, virtio_net_handle_interrupt, handle_irq,
  isr_handler,
}

-- The bytes that the effects write to ports, one after the other.
pub writes : List Effect → List Write
writes [] = []
writes (port ws ∷ es) = ws ++ writes es
writes (shell actions ∷ es) = writes es
writes (e1000_handle_interrupt ∷ es) = writes es
writes (virtio_net_handle_interrupt ∷ es) = writes es

writes-append : (es fs : List Effect) → writes (es ++ fs) ≡ writes es ++ writes fs
unfolding writes
writes-append [] fs = refl
writes-append (port ws ∷ es) fs =
    ap (λ t. ws ++ t) (writes-append es fs) ∙ sym (append_assoc ws (writes es) (writes fs))
writes-append (shell actions ∷ es) fs = writes-append es fs
writes-append (e1000_handle_interrupt ∷ es) fs = writes-append es fs
writes-append (virtio_net_handle_interrupt ∷ es) fs = writes-append es fs

handle-silent : (inb : ℕ → ℕ) (int_no : ℕ) (m : Machine) → writes (handle_irq inb int_no m).1 ≡ []
unfolding writes handle_irq
handle-silent inb int_no m = ground arith

-- `isr_handler` returns for the interrupts 32 to 47; what it writes to ports itself is the end
-- of interrupt, to the second controller first where the interrupt came through it.
pub isr_handler-eoi :
    (inb : ℕ → ℕ) (int_no : ℕ) (m : Machine)
    → 32 ≤ int_no
    → int_no < 48
    → (m' : Machine) × (es : List Effect) × (isr_handler inb int_no m ≡ some (m', es))
      × (writes es
          ≡ (if leb 40 int_no then outb 0xA0 0x20 ∷ outb 0x20 0x20 ∷ [] else outb 0x20 0x20 ∷ []))
unfolding isr_handler writes pic_send_eoi
isr_handler-eoi inb int_no m low high =
    let irq : ltb int_no 32 ≡ false = ground arith in
    let hardware : ltb int_no 48 ≡ true = ground arith in
    let slave : leb 8 (int_no - 32) ≡ leb 40 int_no = ground arith in
    let silent = handle-silent inb int_no m in
    let end = pic_send_eoi (int_no - 32) in
    (
      (handle_irq inb int_no m).0,
      (handle_irq inb int_no m).1 ++ port end ∷ [],
      rw (irq, hardware) refl,
      writes-append (handle_irq inb int_no m).1 (port end ∷ [])
          ∙ rw (silent, slave)
              (elim (Bool-cases (leb 40 int_no)) [
                | inl second ↦ rw second refl
                | inr first ↦ rw first refl
              ]),
    )
