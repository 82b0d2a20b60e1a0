-- ===== src/Kernel/Clock/Tests.antt =====
-- Runs of the clock.
use orionis_os.Base.{ℕ, ◌≡◌, refl, false, arith, get_or, ◌==◌, if◌then◌else◌, [], ◌∷◌}
use orionis_os.Kernel.Clock.{Time, rtc_get_time, beijing_time, days_in_month}
use orionis_os.Kernel.Clock.Bcd.{rtc_get_time-IsShown, rtc_get_time_afternoon}
use orionis_os.Kernel.Clock.Shift.{
  IsTime, IsLater, day_number, is_leap, beijing_time-IsLater, beijing_time_century,
}

-- 2024-12-31 20:15:30.
abbrev new_year_eve : Time
new_year_eve = record { second = 30; minute = 15; hour = 20; day = 31; month = 12; year = 2024 }

-- The registers 0 to 11, and the century.
abbrev registers : ℕ → ℕ → ℕ → ℕ
registers hour register_b a =
    if a == 0x32
    then 0x20
    else get_or (0x30 ∷ 0 ∷ 0x15 ∷ 0 ∷ hour ∷ 0 ∷ 2 ∷ 0x31 ∷ 0x12 ∷ 0x24 ∷ 0 ∷ register_b ∷ []) a 0

beijing_run :
    beijing_time new_year_eve
    ≡ record { second = 30; minute = 15; hour = 4; day = 1; month = 1; year = 2025 }
unfolding beijing_time days_in_month
beijing_run = refl

rtc_get_time-IsShown_example : rtc_get_time (registers 0x20 2) ≡ new_year_eve
rtc_get_time-IsShown_example =
    rtc_get_time-IsShown (registers 0x20 2) new_year_eve refl refl
      (record {
        second = omega arith;
        minute = omega arith;
        day = omega arith;
        month = omega arith;
        year = omega arith;
      })
      refl (omega arith)

-- Eight in the evening, with hours to 12.
rtc_get_time_afternoon_run : (rtc_get_time (registers 0x88 0)).hour ≡ 88
rtc_get_time_afternoon_run =
    rtc_get_time_afternoon (registers 0x88 0) 8 refl refl refl (omega arith) (omega arith)

new_year_eve-IsTime : IsTime new_year_eve
unfolding day_number
new_year_eve-IsTime = omega arith

beijing_time-IsLater_example : IsLater new_year_eve (beijing_time new_year_eve)
beijing_time-IsLater_example =
    beijing_time-IsLater new_year_eve new_year_eve-IsTime (omega arith) (omega arith)

abbrev february_2100 : Time
february_2100 = record { second = 0; minute = 0; hour = 18; day = 28; month = 2; year = 2100 }

century_run :
    ((beijing_time february_2100).month ≡ 2)
    × ((beijing_time february_2100).day ≡ 29)
    × (is_leap 2100 ≡ false)
century_run =
    beijing_time_century february_2100 refl (omega arith) refl refl (omega arith) (omega arith)
