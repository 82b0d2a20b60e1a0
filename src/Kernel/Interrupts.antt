-- ===== src/Kernel/Interrupts.antt =====
-- The interrupt table of kernel/cpu/idt.cpp and the dispatch of kernel/cpu/isr.cpp. `stub` gives the
-- address of the assembly stub of a vector; what the handler prints is left out.
mod Gates
mod Dispatch
use orionis_os.Base.{
  ℕ, zero, suc, ◌+◌, ◌-◌, ◌*◌, ◌/◌, ◌%◌, ◌^◌, Bool, not, Option, none, some, List, [], ◌∷◌, ◌++◌,
  ltb, leb, ◌==◌, u64, if◌then◌else◌,
}
use orionis_os.Kernel.Keyboard.{Console, console_run}
use orionis_os.Kernel.Pic.{Write, pic_send_eoi}
use orionis_os.Kernel.Shell.{Action}

-- `idt_entry_t`.
pub record Gate : Type 0 where
  pub isr_low : ℕ
  pub kernel_cs : ℕ
  pub ist : ℕ
  pub attributes : ℕ
  pub isr_mid : ℕ
  pub isr_high : ℕ
  pub reserved : ℕ

abbrev pub gate : ℕ → ℕ → ℕ → Gate
gate base sel flags = record {
  isr_low = base % 2 ^ 16;
  kernel_cs = sel;
  ist = 0;
  attributes = flags;
  isr_mid = base / 2 ^ 16 % 2 ^ 16;
  isr_high = base / 2 ^ 32 % 2 ^ 32;
  reserved = 0;
}

pub idt_set_gate : ℕ → ℕ → ℕ → ℕ → (ℕ → Gate) → ℕ → Gate
idt_set_gate num base sel flags entries n = if n == num then gate base sel flags else entries n

-- The gates from vector `num` on, `n` of them.
pub set_gates : ℕ → ℕ → (ℕ → ℕ) → (ℕ → Gate) → ℕ → Gate
set_gates zero num stub entries = entries
set_gates (suc n) num stub entries =
    set_gates n (num + 1) stub (idt_set_gate num (stub num) 0x08 0x8E entries)

pub init_idt : (ℕ → ℕ) → (ℕ → Gate) → ℕ → Gate
init_idt stub entries =
    idt_set_gate 43 (stub 43) 0x08 0x8E
      (idt_set_gate 42 (stub 42) 0x08 0x8E (set_gates 34 0 stub entries))

-- What the handler changes, and the part of the kernel that it calls.
pub record Machine : Type 0 where
  pub tick : ℕ
  pub cursor_visible : Bool
  pub console : Console

pub data Effect : Type 0 where
  shell : List Action → Effect
  e1000_handle_interrupt : Effect
  virtio_net_handle_interrupt : Effect
  port : List Write → Effect

abbrev pub count_tick : Machine → Machine
count_tick m =
    let tick = u64 (m.tick + 1) in
    record m {
      tick = tick;
      cursor_visible = if tick % 500 == 0 then not m.cursor_visible else m.cursor_visible;
    }

-- The handlers of the interrupts 32 to 47; `inb` gives what a port shows.
pub handle_irq : (ℕ → ℕ) → ℕ → Machine → Machine × List Effect
handle_irq inb int_no m =
    if int_no == 32
    then (count_tick m, [])
    else if int_no == 33
    then (let (console, actions) = console_run (inb 0x60 ∷ []) m.console in
        (record m { console = console }, shell actions ∷ []))
    else if int_no == 42
    then (m, e1000_handle_interrupt ∷ [])
    else if int_no == 43
    then (m, virtio_net_handle_interrupt ∷ [])
    else (m, [])

-- `none` stands for `kernel_panic`, which does not return.
pub isr_handler : (ℕ → ℕ) → ℕ → Machine → Option (Machine × List Effect)
isr_handler inb int_no m =
    if ltb int_no 32
    then none
    else if ltb int_no 48
    then (let (m', effects) = handle_irq inb int_no m in
        some (m', effects ++ port (pic_send_eoi (int_no - 32)) ∷ []))
    else none
