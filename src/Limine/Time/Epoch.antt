-- ===== src/Limine/Time/Epoch.antt =====
-- The seconds since 1970 by the Gregorian calendar.
use orionis_os.Base.{
  ℕ, ◌+◌, ◌-◌, ◌*◌, ◌/◌, ◌%◌, ◌≤◌, ◌<◌, ◌≡◌, ◌≢◌, refl, arith, ltb, ◌==◌, true, Bool-cases, inl,
  inr, eqb→eq, subst, all_below, all_below_sound, if◌then◌else◌,
}
use orionis_os.Kernel.Clock.Shift.{day_number, leap_day, days_before_month, days_before_year}
use orionis_os.Limine.Time.{bcd_to_int, get_jdn, get_unix_epoch, Registers, time}

quarters : (k : ℕ) → 1461 * k / 4 ≡ 365 * k + k / 4
quarters k = omega arith

three_quarters : (q : ℕ) → 3 * q / 4 + (q + 3) / 4 ≡ q
three_quarters q = omega arith

early_century : (y : ℕ) → 3 * ((y + 4899) / 100) / 4 + (12 + (y + 399) / 400) ≡ 48 + (y + 99) / 100
early_century y =
    let q : (y + 4899) / 100 ≡ 48 + (y + 99) / 100 = omega arith in
    let h : (48 + (y + 99) / 100 + 3) / 4 ≡ 12 + (y + 399) / 400 = omega arith in
    rw q (omega (arith, three_quarters (48 + (y + 99) / 100), h))

late_century : (y : ℕ) → 3 * ((y + 4900) / 100) / 4 + (13 + y / 400) ≡ 49 + y / 100
late_century y =
    let q : (y + 4900) / 100 ≡ 49 + y / 100 = omega arith in
    let h : (49 + y / 100 + 3) / 4 ≡ 13 + y / 400 = omega arith in
    rw q (omega (arith, three_quarters (49 + y / 100), h))

leap_day_lem :
    (y : ℕ)
    → (y + 3) / 4 + (y + 399) / 400 + y / 100 + leap_day y ≡ y / 4 + y / 400 + (y + 99) / 100 + 1
leap_day_lem y = elim (Bool-cases (y % 4 == 0)) [
  | inr plain ↦ let r : y % 4 ≢ 0 = ground (arith, plain) in rw plain (omega (arith, r))
  | inl fourth ↦
      let r : y % 4 ≡ 0 = ground (arith, fourth) in
      elim (Bool-cases (y % 100 == 0)) [
        | inr common ↦
            let c : y % 100 ≢ 0 = ground (arith, common) in
            rw (fourth, common) (omega (arith, r, c))
        | inl century ↦
            let c : y % 100 ≡ 0 = ground (arith, century) in
            elim (Bool-cases (y % 400 == 0)) [
              | inr other ↦
                  let f : y % 400 ≢ 0 = ground (arith, other) in
                  rw (fourth, century, other) (omega (arith, c, f))
              | inl great ↦
                  let f : y % 400 ≡ 0 = ground (arith, great) in
                  rw (fourth, century, great) (omega (arith, f))
            ]
      ]
]

-- The years up to the last of February, and from the first of March on.
years_early :
    (y : ℕ) → 1461 * (y + 4799) / 4 ≡ days_before_year y + 3 * ((y + 4899) / 100) / 4 + 1752798
years_early y =
    let k : (y + 4799) / 4 ≡ (y + 3) / 4 + 1199 = omega arith in
    let low : (y + 99) / 100 ≤ y + 1 = omega arith in
    omega (arith, quarters (y + 4799), k, early_century y, low)

years_late :
    (y : ℕ)
    → 1461 * (y + 4800) / 4 ≡ days_before_year y + leap_day y + 3 * ((y + 4900) / 100) / 4 + 1753163
years_late y =
    let k : (y + 4800) / 4 ≡ y / 4 + 1200 = omega arith in
    let low : (y + 99) / 100 ≤ y + 1 = omega arith in
    let leap = leap_day_lem y in omega (arith, quarters (y + 4800), k, late_century y, low, leap)

get_jdn_early :
    (d m y : ℕ)
    → 1 ≤ m
    → m ≤ 2
    → get_jdn d m y
      ≡ 1461 * (y + 4799) / 4 + 367 * (m + 10) / 12 - 3 * ((y + 4899) / 100) / 4 + d - 32075
unfolding get_jdn
get_jdn_early d m y low high =
    let up : (m - 14) / 12 ≡ 0 = omega arith in
    let down : (14 - m) / 12 ≡ 1 = omega arith in
    let a : y + 4800 + 0 - 1 ≡ y + 4799 = omega arith in
    let b : y + 4900 + 0 - 1 ≡ y + 4899 = omega arith in
    let c : m + 12 * 1 - 2 - 12 * 0 ≡ m + 10 = omega arith in rw (get_jdn, up, down, a, b, c) refl

get_jdn_late :
    (d m y : ℕ)
    → 3 ≤ m
    → m ≤ 12
    → get_jdn d m y
      ≡ 1461 * (y + 4800) / 4 + 367 * (m - 2) / 12 - 3 * ((y + 4900) / 100) / 4 + d - 32075
unfolding get_jdn
get_jdn_late d m y low high =
    let up : (m - 14) / 12 ≡ 0 = omega arith in
    let down : (14 - m) / 12 ≡ 0 = omega arith in
    let a : y + 4800 + 0 - 0 ≡ y + 4800 = omega arith in
    let b : y + 4900 + 0 - 0 ≡ y + 4900 = omega arith in
    let c : m + 12 * 0 - 2 - 12 * 0 ≡ m - 2 = omega arith in rw (get_jdn, up, down, a, b, c) refl

months_early : all_below 2 (λ k. 367 * (k + 1 + 10) / 12 == days_before_month (k + 1) + 336) ≡ true
unfolding all_below
months_early = refl

months_late : all_below 10 (λ k. 367 * (k + 3 - 2) / 12 + 29 == days_before_month (k + 3)) ≡ true
unfolding all_below
months_late = refl

-- For a month from 1 to 12, `get_jdn` counts the days of the Gregorian calendar.
get_jdn-day_number :
    (days months years : ℕ)
    → 1 ≤ months
    → months ≤ 12
    → get_jdn days months years ≡ day_number years months days + 1721059
unfolding day_number
get_jdn-day_number days months years low high = elim (Bool-cases (ltb 2 months)) [
  | inl late ↦
      let from : 3 ≤ months = ground (arith, late) in
      let k : months - 3 + 3 ≡ months = omega (arith, from) in
      let table =
        subst (λ m. 367 * (m - 2) / 12 + 29 ≡ days_before_month m) k
          (eqb→eq (367 * (months - 3 + 3 - 2) / 12 + 29) (days_before_month (months - 3 + 3)) (
            all_below_sound 10 (months - 3)
              (λ k. 367 * (k + 3 - 2) / 12 + 29 == days_before_month (k + 3)) months_late
              (omega (arith, high)))) in
      rw late (omega (arith, get_jdn_late days months years from high, years_late years, table))
  | inr early ↦
      let to : months ≤ 2 = ground (arith, early) in
      let k : months - 1 + 1 ≡ months = omega arith in
      let table =
        subst (λ m. 367 * (m + 10) / 12 ≡ days_before_month m + 336) k
          (eqb→eq (367 * (months - 1 + 1 + 10) / 12) (days_before_month (months - 1 + 1) + 336) (
            all_below_sound 2 (months - 1)
              (λ k. 367 * (k + 1 + 10) / 12 == days_before_month (k + 1) + 336) months_early
              (omega (arith, to, low)))) in
      rw early (omega (arith, get_jdn_early days months years low to, years_early years, table))
]

abbrev pub bcd : ℕ → ℕ
bcd n = n / 10 * 16 + n % 10

-- The registers when the clock shows a date and a time.
abbrev pub shown : ℕ → ℕ → ℕ → ℕ → ℕ → ℕ → Registers
shown year month day hour minute second = record {
  date_ecx = bcd (year / 100) * 256 + bcd (year % 100);
  date_edx = bcd month * 256 + bcd day;
  time_ecx = bcd hour * 256 + bcd minute;
  time_edx = bcd second * 256 + 0;
}

bcd_to_int-low : (m n : ℕ) → n < 100 → bcd_to_int ((m * 256 + bcd n) % 256) ≡ n
unfolding bcd_to_int
bcd_to_int-low m n lt = omega arith

bcd_to_int-high : (m n : ℕ) → m < 256 → n < 100 → bcd_to_int ((bcd n * 256 + m) / 256 % 256) ≡ n
unfolding bcd_to_int
bcd_to_int-high m n small lt = omega arith

since_1970 :
    (years months days : ℕ)
    → 1970 ≤ years
    → years < 10000
    → 1 ≤ days
    → days < 100
    → (719529 ≤ day_number years months days) × (day_number years months days < 4000000)
unfolding day_number
since_1970 years months days from to low high =
    let year : 719528 ≤ days_before_year years = omega arith in
    let bound : days_before_month months ≤ 365 = ground arith in
    let one : (if ltb 2 months then leap_day years else 0) ≤ 1 = ground arith in
    let top : days_before_year years < 3700000 = omega arith in
    (omega (arith, year, low), omega (arith, bound, one, top, high))

first_day : day_number 1970 1 1 ≡ 719529
unfolding day_number
first_day = refl

get_unix_epoch-day_number :
    (seconds minutes hours days months years : ℕ)
    → 1 ≤ months
    → months ≤ 12
    → 1970 ≤ years
    → years < 10000
    → 1 ≤ days
    → days < 100
    → hours < 100
    → minutes < 100
    → seconds < 100
    → get_unix_epoch seconds minutes hours days months years
      ≡ (day_number years months days - day_number 1970 1 1) * 86400
        + hours * 3600
        + minutes * 60
        + seconds
unfolding get_unix_epoch
get_unix_epoch-day_number seconds minutes hours days months years lowm highm lowy highy lowd highd
      small_h small_m small_s =
    let (start, end) = since_1970 years months days lowy highy lowd highd in
    rw
      (
        get_unix_epoch,
        get_jdn-day_number days months years lowm highm,
        get_jdn-day_number 1 1 1970 (omega arith) (omega arith),
        first_day,
      )
      (omega (arith, start, end))

-- When the clock shows a date from 1970 to 9999 and a time, all of two digits but for the year, `time`
-- is the number of seconds from the start of 1970 to it by the Gregorian calendar.
pub time-day_number :
    (years months days hours minutes seconds : ℕ)
    → 1970 ≤ years
    → years < 10000
    → 1 ≤ months
    → months ≤ 12
    → 1 ≤ days
    → days < 100
    → hours < 100
    → minutes < 100
    → seconds < 100
    → time (shown years months days hours minutes seconds)
      ≡ (day_number years months days - day_number 1970 1 1) * 86400
        + hours * 3600
        + minutes * 60
        + seconds
unfolding time
time-day_number years months days hours minutes seconds lowy highy lowm highm lowd highd small_h
      small_m small_s =
    let year : years % 100 + years / 100 * 100 ≡ years = omega arith in
    rw
      (
        time,
        bcd_to_int-low (bcd months) days highd,
        bcd_to_int-high (bcd days) months (omega arith) (omega arith),
        bcd_to_int-low (bcd (years / 100)) (years % 100) (omega arith),
        bcd_to_int-high (bcd (years % 100)) (years / 100) (omega arith) (omega arith),
        bcd_to_int-low (bcd hours) minutes small_m,
        bcd_to_int-high (bcd minutes) hours (omega arith) small_h,
        bcd_to_int-high 0 seconds (omega arith) small_s,
        year,
      )
      ((get_unix_epoch-day_number seconds minutes hours days months years lowm highm lowy highy lowd
        highd small_h small_m small_s))
