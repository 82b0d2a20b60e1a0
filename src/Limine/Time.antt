-- ===== src/Limine/Time.antt =====
-- The clock of the boot loader: limine/stage2/lib/time.c, and `bcd_to_int` of limine/stage2/lib/blib.c.
-- The registers that interrupt 0x1a of the BIOS leaves are a parameter. The C code divides integers
-- towards 0: (months - 14) / 12 is written here as the difference of `over` and `under`, of which one is
-- 0. All other numbers are positive, and none comes near 2 ^ 31.
mod Epoch
mod Tests
use orionis_os.Base.{ℕ, ◌+◌, ◌-◌, ◌*◌, ◌/◌, ◌%◌, ◌^◌, u8, u64}

unfoldable pub bcd_to_int : ℕ → ℕ
bcd_to_int val = u8 (val % 16 + val / 16 % 16 * 10)

abbrev under : ℕ → ℕ
under months = (14 - months) / 12

abbrev over : ℕ → ℕ
over months = (months - 14) / 12

unfoldable pub get_jdn : ℕ → ℕ → ℕ → ℕ
get_jdn days months years =
    1461 * (years + 4800 + over months - under months) / 4
    + 367 * (months + 12 * under months - 2 - 12 * over months) / 12
    - 3 * ((years + 4900 + over months - under months) / 100) / 4
    + days
    - 32075

unfoldable pub get_unix_epoch : ℕ → ℕ → ℕ → ℕ → ℕ → ℕ → ℕ
get_unix_epoch seconds minutes hours days months years =
    let jdn_diff = u64 (get_jdn days months years + 2 ^ 64 - get_jdn 1 1 1970) in
    u64 (jdn_diff * (60 * 60 * 24) + hours * 3600 + minutes * 60 + seconds)

-- `ecx` and `edx` after the call for the date and after that for the time.
pub record Registers : Type 0 where
  pub date_ecx : ℕ
  pub date_edx : ℕ
  pub time_ecx : ℕ
  pub time_edx : ℕ

unfoldable pub time : Registers → ℕ
time r =
    let day = bcd_to_int (r.date_edx % 256) in
    let month = bcd_to_int (r.date_edx / 256 % 256) in
    let year = bcd_to_int (r.date_ecx % 256) + bcd_to_int (r.date_ecx / 256 % 256) * 100 in
    let second = bcd_to_int (r.time_edx / 256 % 256) in
    let minute = bcd_to_int (r.time_ecx % 256) in
    let hour = bcd_to_int (r.time_ecx / 256 % 256) in
    get_unix_epoch second minute hour day month year
