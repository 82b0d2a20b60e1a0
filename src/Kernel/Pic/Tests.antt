-- ===== src/Kernel/Pic/Tests.antt =====
-- Runs of the timer and the interrupt controllers.
use orionis_os.Base.{◌≡◌, refl, [], ◌∷◌, none, arith}
use orionis_os.Kernel.Pic.{Timer, timer_sleep_ms, pic_send_eoi, outb}
use orionis_os.Kernel.Pic.Sleep.{timer_sleep_ms_waits}

abbrev timer : Timer
timer = record { ticks = 7; timer_freq = 1000 }

timer_sleep_ms_waits_run : timer_sleep_ms 20 15 timer ≡ none
timer_sleep_ms_waits_run =
    timer_sleep_ms_waits 20 15 timer (omega arith) (omega arith) (omega arith)

slave_eoi : pic_send_eoi 10 ≡ outb 0xA0 0x20 ∷ outb 0x20 0x20 ∷ []
unfolding pic_send_eoi
slave_eoi = refl
