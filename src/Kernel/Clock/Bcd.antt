-- ===== src/Kernel/Clock/Bcd.antt =====
-- `rtc_get_time` over registers in BCD.
use orionis_os.Base.{ℕ, ◌+◌, ◌*◌, ◌/◌, ◌%◌, ◌≤◌, ◌<◌, ◌≡◌, refl, ap, ◌∙◌, true, false, arith}
use orionis_os.Kernel.Clock.{Time, bcd_to_bin, is_binary, is_24_hour, rtc_get_time}

-- The byte that shows `n` in two decimal digits.
abbrev pub bcd : ℕ → ℕ
bcd n = n / 10 * 16 + n % 10

-- The registers show the time in BCD.
pub record IsShown (cmos : ℕ → ℕ) (t : Time) : Type 0 where
  pub second : (cmos 0x00 ≡ bcd t.second) × (t.second < 100)
  pub minute : (cmos 0x02 ≡ bcd t.minute) × (t.minute < 100)
  pub day : (cmos 0x07 ≡ bcd t.day) × (t.day < 100)
  pub month : (cmos 0x08 ≡ bcd t.month) × (t.month < 100)
  pub year : (cmos 0x09 ≡ bcd (t.year % 100)) × (cmos 0x32 ≡ bcd (t.year / 100)) × (t.year < 10000)

pub bcd_to_bin-bcd : (n : ℕ) → n < 100 → bcd_to_bin (bcd n) ≡ n
unfolding bcd_to_bin
bcd_to_bin-bcd n h = omega arith

reads : (byte n : ℕ) → byte ≡ bcd n → n < 100 → bcd_to_bin byte ≡ n
reads byte n e h = ap bcd_to_bin e ∙ bcd_to_bin-bcd n h

pm_byte : (h : ℕ) → 1 ≤ h → h ≤ 12 → bcd_to_bin (0x80 + bcd h) ≡ h + 80
unfolding bcd_to_bin
pm_byte h low high = omega arith

-- Registers in BCD, with hours to 23, are read back as the time that they show.
pub rtc_get_time-IsShown :
    (cmos : ℕ → ℕ) (t : Time)
    → is_binary (cmos 0x0B) ≡ false
    → is_24_hour (cmos 0x0B) ≡ true
    → IsShown cmos t
    → cmos 0x04 ≡ bcd t.hour
    → t.hour < 100
    → rtc_get_time cmos ≡ t
unfolding rtc_get_time
rtc_get_time-IsShown cmos t coded long shown hour small =
    let second = reads (cmos 0x00) t.second shown.second.0 shown.second.1 in
    let minute = reads (cmos 0x02) t.minute shown.minute.0 shown.minute.1 in
    let hours = reads (cmos 0x04) t.hour hour small in
    let day = reads (cmos 0x07) t.day shown.day.0 shown.day.1 in
    let month = reads (cmos 0x08) t.month shown.month.0 shown.month.1 in
    let low = reads (cmos 0x09) (t.year % 100) shown.year.0 (omega arith) in
    let high = reads (cmos 0x32) (t.year / 100) shown.year.1 (omega (arith, shown.year.2)) in
    let year : t.year % 100 + t.year / 100 * 100 ≡ t.year = omega arith in
    rw (coded, long, second, minute, hours, day, month, low, high, year) refl

-- With hours to 12 in BCD, the bit for the afternoon is lost in the decoding: the hour from 1 to 12
-- that the register shows comes out with 80 added to it.
pub rtc_get_time_afternoon :
    (cmos : ℕ → ℕ) (h : ℕ)
    → is_binary (cmos 0x0B) ≡ false
    → is_24_hour (cmos 0x0B) ≡ false
    → cmos 0x04 ≡ 0x80 + bcd h
    → 1 ≤ h
    → h ≤ 12
    → (rtc_get_time cmos).hour ≡ h + 80
unfolding rtc_get_time
rtc_get_time_afternoon cmos h coded short shown low high =
    let hour : bcd_to_bin (cmos 0x04) ≡ h + 80 = ap bcd_to_bin shown ∙ pm_byte h low high in
    rw (coded, short) (ground (arith, hour))
