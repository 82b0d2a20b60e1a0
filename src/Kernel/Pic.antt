-- ===== src/Kernel/Pic.antt =====
-- The interrupt controllers and the timer chip: kernel/cpu/pic.cpp, kernel/cpu/pit.cpp and
-- kernel/cpu/timer.cpp. What goes to the ports is a list of writes; `inb` gives what a port shows.
mod Masks
mod Sleep
mod Tests
use orionis_os.Base.{
  ℕ, zero, suc, ◌+◌, ◌-◌, ◌*◌, ◌/◌, ◌%◌, ◌^◌, Bool, Option, none, some, List, [], ◌∷◌, ◌++◌, ltb,
  leb, u8, u32, u64, clear_bit, if◌then◌else◌,
}

-- One `outb`.
pub record Write : Type 0 where
  pub port : ℕ
  pub byte : ℕ

abbrev pub outb : ℕ → ℕ → Write
outb port byte = record { port = port; byte = u8 byte }

abbrev pub pic1_command : ℕ
pic1_command = 0x20

abbrev pub pic1_data : ℕ
pic1_data = 0x21

abbrev pub pic2_command : ℕ
pic2_command = 0xA0

abbrev pub pic2_data : ℕ
pic2_data = 0xA1

unfoldable pub pic_send_eoi : ℕ → List Write
pic_send_eoi irq =
    (if leb 8 irq then outb pic2_command 0x20 ∷ [] else []) ++ outb pic1_command 0x20 ∷ []

pub pic_remap : (ℕ → ℕ) → ℕ → ℕ → List Write
pic_remap inb offset1 offset2 =
    let a1 = inb pic1_data in
    let a2 = inb pic2_data in
    outb pic1_command 0x11
    ∷ outb pic2_command 0x11
    ∷ outb pic1_data offset1
    ∷ outb pic2_data offset2
    ∷ outb pic1_data 4
    ∷ outb pic2_data 2
    ∷ outb pic1_data 0x01
    ∷ outb pic2_data 0x01
    ∷ outb pic1_data a1
    ∷ outb pic2_data a2
    ∷ []

abbrev pub mask_port : ℕ → ℕ
mask_port irq = if ltb irq 8 then pic1_data else pic2_data

abbrev pub mask_bit : ℕ → ℕ
mask_bit irq = if ltb irq 8 then irq else irq - 8

-- A bit behind the eighth is not in the mask.
pub pic_unmask_irq : (ℕ → ℕ) → ℕ → List Write
pic_unmask_irq inb irq =
    let mask = inb (mask_port irq) in
    outb (mask_port irq) (if ltb (mask_bit irq) 8 then clear_bit mask (mask_bit irq) else mask) ∷ []

-- `init_pit`, and what `timer_init` sends.
pub init_pit : ℕ → List Write
init_pit frequency =
    let divisor = 1193180 / frequency in
    outb 0x43 0x36 ∷ outb 0x40 divisor ∷ outb 0x40 (divisor / 2 ^ 8) ∷ []

-- `ticks` and `timer_freq`.
pub record Timer : Type 0 where
  pub ticks : ℕ
  pub timer_freq : ℕ

pub timer_handle_interrupt : Timer → Timer
timer_handle_interrupt t = record t { ticks = u64 (t.ticks + 1) }

pub timer_init : ℕ → Timer → Timer × List Write
timer_init frequency t = (record t { timer_freq = frequency }, init_pit frequency)

-- `timer_sleep_us` writes to port 0x80, once a round.
waits : ℕ → List Write
waits zero = []
waits (suc n) = outb 0x80 0 ∷ waits n

pub timer_sleep_us : ℕ → List Write
timer_sleep_us us = waits (u32 (us * 3))

abbrev pub target_ticks : ℕ → Timer → ℕ
target_ticks ms t = u64 (t.ticks + u32 (ms * t.timer_freq) / 1000)

-- The test of the loop in `timer_sleep_ms`.
abbrev pub is_waiting : ℕ → Timer → Bool
is_waiting target t = ltb t.ticks target

-- The loop, of at most `n` rounds. No interrupt changes `ticks` while it waits: `isr_handler` does not
-- call `timer_handle_interrupt`.
unfoldable pub sleep_loop : ℕ → ℕ → Timer → Option Timer
sleep_loop zero target t = none
sleep_loop (suc n) target t =
    let rest = sleep_loop n target t in if is_waiting target t then rest else some t

unfoldable pub timer_sleep_ms : ℕ → ℕ → Timer → Option Timer
timer_sleep_ms rounds ms t = sleep_loop rounds (target_ticks ms t) t
