-- ===== src/Kernel/Pic/Sleep.antt =====
-- The loop of `timer_sleep_ms`, and the divisor that `init_pit` sends.
use orionis_os.Base.{
  ℕ, zero, suc, ◌+◌, ◌*◌, ◌/◌, ◌^◌, ◌≤◌, ◌<◌, ◌≡◌, refl, true, none, [], ◌∷◌, arith, u8,
}
use native.Mathlib.Nat.{div-lt_iff_lt-mul}
use orionis_os.Kernel.Pic.{
  Timer, target_ticks, is_waiting, outb, sleep_loop, timer_sleep_ms, init_pit,
}

-- Where the count does not overflow, `timer_sleep_ms` of at least one tick does not end.
pub timer_sleep_ms_waits :
    (rounds ms : ℕ) (t : Timer)
    → ms * t.timer_freq < 2 ^ 32
    → 1000 ≤ ms * t.timer_freq
    → t.ticks + 2 ^ 32 < 2 ^ 64
    → timer_sleep_ms rounds ms t ≡ none
unfolding timer_sleep_ms sleep_loop
timer_sleep_ms_waits zero ms t small some_tick room = refl
timer_sleep_ms_waits (suc n) ms t small some_tick room =
    let waiting : is_waiting (target_ticks ms t) t ≡ true =
      ground (arith, small, some_tick, room) in
    rw waiting (timer_sleep_ms_waits n ms t small some_tick room)

divisor-lt : (frequency : ℕ) → 19 ≤ frequency → 1193180 / frequency < 65536
divisor-lt frequency h =
    (div-lt_iff_lt-mul {k = frequency} {x = 1193180} {y = 65536} (omega arith)).1 (omega arith)

-- The two bytes that the timer chip gets make up the divisor, for a frequency from 19 on.
pub init_pit-divisor :
    (frequency : ℕ)
    → 19 ≤ frequency
    → (low high : ℕ) × (init_pit frequency
        ≡ outb 0x43 0x36
          ∷ record { port = 0x40; byte = low }
          ∷ record { port = 0x40; byte = high }
          ∷ [])
      × (high * 256 + low ≡ 1193180 / frequency)
unfolding init_pit
init_pit-divisor frequency h = (
  u8 (1193180 / frequency),
  u8 (1193180 / frequency / 2 ^ 8),
  refl,
  omega (arith, divisor-lt frequency h),
)
