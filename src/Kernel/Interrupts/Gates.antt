-- ===== src/Kernel/Interrupts/Gates.antt =====
-- The gates of the interrupt table.
use orionis_os.Base.{
  ◌∙◌, ℕ, zero, suc, ◌+◌, ◌*◌, ◌^◌, ◌<◌, ◌≡◌, arith, ltb, leb, ◌==◌, ◌&&◌, ◌||◌, if◌then◌else◌,
}
use orionis_os.Kernel.Interrupts.{Gate, gate, idt_set_gate, set_gates, init_idt}

-- The address that the processor puts together from a gate.
abbrev pub target : Gate → ℕ
target g = g.isr_low + g.isr_mid * 2 ^ 16 + g.isr_high * 2 ^ 32

target_lem : (base sel flags : ℕ) → base < 2 ^ 64 → target (gate base sel flags) ≡ base
target_lem base sel flags h = omega arith

set_gates_lem :
    (n num k : ℕ) (stub : ℕ → ℕ) (entries : ℕ → Gate)
    → set_gates n num stub entries k
      ≡ (if leb num k && ltb k (num + n) then gate (stub k) 0x08 0x8E else entries k)
unfolding set_gates idt_set_gate
set_gates_lem zero num k stub entries = ground arith
set_gates_lem (suc n) num k stub entries =
    set_gates_lem n (num + 1) k stub (idt_set_gate num (stub num) 0x08 0x8E entries) ∙ ground arith

-- `init_idt` makes the gates of the vectors 0 to 33, 42 and 43 interrupt gates of the kernel's code
-- segment that lead to their stubs, and leaves the others as they are.
pub init_idt-gate :
    (stub : ℕ → ℕ) (entries : ℕ → Gate) (k : ℕ)
    → init_idt stub entries k
      ≡ (if ltb k 34 || (k == 42 || k == 43) then gate (stub k) 0x08 0x8E else entries k)
unfolding init_idt idt_set_gate
init_idt-gate stub entries k = ground (arith, set_gates_lem 34 0 k stub entries)
