-- ===== src/Limine/Time/Tests.antt =====
-- The clock shows the 29th of February 2024.
use orionis_os.Base.{◌+◌, ◌-◌, ◌*◌, ◌≡◌, refl, arith}
use orionis_os.Kernel.Clock.Shift.{day_number}
use orionis_os.Limine.Time.{bcd_to_int, get_jdn, get_unix_epoch, time}
use orionis_os.Limine.Time.Epoch.{shown, time-day_number}

leap_day_run : time (shown 2024 2 29 12 30 15) ≡ 1709209815
unfolding time bcd_to_int get_unix_epoch get_jdn
leap_day_run = refl

time-day_number_example :
    time (shown 2024 2 29 12 30 15)
    ≡ (day_number 2024 2 29 - day_number 1970 1 1) * 86400 + 12 * 3600 + 30 * 60 + 15
time-day_number_example =
    time-day_number 2024 2 29 12 30 15 (omega arith) (omega arith) (omega arith) (omega arith)
      (omega arith) (omega arith) (omega arith) (omega arith) (omega arith)
