-- ===== src/Kernel/Clock.antt =====
-- The real-time clock of kernel/drivers/rtc.cpp and the change to Beijing time in `cmd_time` of
-- command/command.cpp. `cmos` gives the byte of each CMOS register; the clock does not tick while
-- `rtc_get_time` reads it.
mod Bcd
pub mod Shift
mod Tests
use orionis_os.Base.{
  ℕ, ◌+◌, ◌-◌, ◌*◌, ◌/◌, ◌%◌, Bool, ltb, leb, ◌==◌, ◌&&◌, ◌||◌, not, u8, if◌then◌else◌,
}

-- `rtc_time_t`.
pub record Time : Type 0 where
  pub second : ℕ
  pub minute : ℕ
  pub hour : ℕ
  pub day : ℕ
  pub month : ℕ
  pub year : ℕ

pub bcd_to_bin : ℕ → ℕ
bcd_to_bin bcd = u8 (bcd % 16 + bcd / 16 * 10)

-- Bits 2 and 1 of register B: the registers are binary, and the hours run to 23.
abbrev pub is_binary : ℕ → Bool
is_binary register_b = register_b / 4 % 2 == 1

abbrev pub is_24_hour : ℕ → Bool
is_24_hour register_b = register_b / 2 % 2 == 1

abbrev pub raw_time : (ℕ → ℕ) → Time
raw_time cmos = record {
  second = cmos 0x00;
  minute = cmos 0x02;
  hour = cmos 0x04;
  day = cmos 0x07;
  month = cmos 0x08;
  year = cmos 0x09 + 2000;
}

abbrev pub decoded_time : (ℕ → ℕ) → Time
decoded_time cmos = record {
  second = bcd_to_bin (cmos 0x00);
  minute = bcd_to_bin (cmos 0x02);
  hour = bcd_to_bin (cmos 0x04);
  day = bcd_to_bin (cmos 0x07);
  month = bcd_to_bin (cmos 0x08);
  year = bcd_to_bin (cmos 0x09) + bcd_to_bin (cmos 0x32) * 100;
}

-- Bit 7 of the hour stands for the afternoon.
abbrev pub afternoon : Time → Time
afternoon t = if leb 0x80 t.hour then record t { hour = (t.hour % 0x80 + 12) % 24 } else t

pub rtc_get_time : (ℕ → ℕ) → Time
rtc_get_time cmos =
    let time = if is_binary (cmos 0x0B) then raw_time cmos else decoded_time cmos in
    if is_24_hour (cmos 0x0B) then time else afternoon time

pub days_in_month : ℕ → ℕ → ℕ
days_in_month month year =
    if month == 4 || (month == 6 || (month == 9 || month == 11))
    then 30
    else if month == 2
    then (if year % 4 == 0 then 29 else 28)
    else 31

-- The next day, where `cmd_time` has carried into it.
abbrev pub carry_month : Time → Time
carry_month t = if ltb 12 t.month then record t { month = 1; year = t.year + 1 } else t

abbrev pub carry_day : Time → Time
carry_day t =
    if ltb (days_in_month t.month t.year) t.day
    then carry_month (record t { day = 1; month = u8 (t.month + 1) })
    else t

pub beijing_time : Time → Time
beijing_time t =
    let hour = u8 (t.hour + 8) in
    if leb 24 hour
    then carry_day (record t { hour = hour - 24; day = u8 (t.day + 1) })
    else record t { hour = hour }
