-- ===== src/Kernel/Clock/Shift.antt =====
-- `cmd_time` against the Gregorian calendar: eight hours later.
use orionis_os.Base.{
  ℕ, ◌+◌, ◌-◌, ◌*◌, ◌/◌, ◌%◌, ◌≤◌, ◌<◌, ◌≡◌, ◌≢◌, refl, ap, sym, ◌∙◌, Bool, true, false, arith, ltb,
  leb, ◌==◌, ◌&&◌, ◌||◌, not, u8, Bool-cases, inl, inr, if◌then◌else◌,
}
use orionis_os.Kernel.Clock.{Time, days_in_month, beijing_time, carry_month}

abbrev pub is_leap : ℕ → Bool
is_leap year = year % 4 == 0 && (not (year % 100 == 0) || year % 400 == 0)

abbrev pub leap_day : ℕ → ℕ
leap_day year = if is_leap year then 1 else 0

-- The days of the year before the month, without a leap day.
abbrev pub days_before_month : ℕ → ℕ
days_before_month month =
    if month == 1
    then 0
    else if month == 2
    then 31
    else if month == 3
    then 59
    else if month == 4
    then 90
    else if month == 5
    then 120
    else if month == 6
    then 151
    else if month == 7
    then 181
    else if month == 8
    then 212
    else if month == 9
    then 243
    else if month == 10
    then 273
    else if month == 11
    then 304
    else if month == 12
    then 334
    else 365

-- The days of all years before this one, and of this year before the month.
abbrev pub days_before_year : ℕ → ℕ
days_before_year year = year * 365 + (year + 3) / 4 + (year + 399) / 400 - (year + 99) / 100

unfoldable pub day_number : ℕ → ℕ → ℕ → ℕ
day_number year month day =
    days_before_year year
    + days_before_month month
    + (if ltb 2 month then leap_day year else 0)
    + day

pub hours : Time → ℕ
hours t = day_number t.year t.month t.day * 24 + t.hour

pub record IsTime (t : Time) : Type 0 where
  pub hour_range : t.hour < 24
  pub month_range : (1 ≤ t.month) × (t.month ≤ 12)
  pub day_range :
      (1 ≤ t.day) × (day_number t.year t.month t.day ≤ day_number t.year (t.month + 1) 0)

-- The table of the code gives the lengths of the months, in the years in which every fourth year is a
-- leap year.
days_in_month_lem :
    (month year : ℕ)
    → 1 ≤ month
    → month ≤ 12
    → 1901 ≤ year
    → year ≤ 2099
    → day_number year (month + 1) 0 ≡ day_number year month (days_in_month month year)
unfolding day_number days_in_month
days_in_month_lem month year low high from to = ground arith

-- The months follow one another, and so do the years.
next_year : (year : ℕ) → day_number year 13 1 ≡ day_number (year + 1) 1 1
unfolding day_number
next_year year = ground arith

-- The time eight hours later.
pub record IsLater (t t' : Time) : Type 0 where
  pub time : IsTime t'
  pub later : hours t' ≡ hours t + 8
  pub same : (t'.minute ≡ t.minute) × (t'.second ≡ t.second)

day_number_add : (year month day : ℕ) → day_number year month day ≡ day_number year month 0 + day
unfolding day_number
day_number_add year month day = omega arith

month_not_empty :
    (year month : ℕ)
    → 1 ≤ month
    → month ≤ 12
    → day_number year month 1 ≤ day_number year (month + 1) 0
unfolding day_number
month_not_empty year month low high = ground arith

days_in_month-le : (month year : ℕ) → days_in_month month year ≤ 31
unfolding days_in_month
days_in_month-le month year = ground arith

module _ (t : Time) (v : IsTime t) (from : 1901 ≤ t.year) (to : t.year ≤ 2099) where
  abbrev next_day : Time
  next_day = record t { hour = u8 (t.hour + 8) - 24; day = t.day + 1 }

  last_day :
      day_number t.year (t.month + 1) 0 ≡ day_number t.year t.month 0 + days_in_month t.month t.year
  last_day =
      days_in_month_lem t.month t.year v.month_range.0 v.month_range.1 from to
      ∙ day_number_add t.year t.month (days_in_month t.month t.year)

  this_day : day_number t.year t.month t.day ≡ day_number t.year t.month 0 + t.day
  this_day = day_number_add t.year t.month t.day

  day_byte : u8 (t.day + 1) ≡ t.day + 1
  day_byte =
      let short = days_in_month-le t.month t.year in
      let inside : t.day ≤ days_in_month t.month t.year =
        omega (arith, last_day, this_day, v.day_range.1) in
      omega (arith, short, inside)

  module _ (late : leb 24 (u8 (t.hour + 8)) ≡ true) where
    same_month : ltb (days_in_month t.month t.year) (t.day + 1) ≡ false → IsLater t next_day
    unfolding hours
    same_month room =
        let next = day_number_add t.year t.month (t.day + 1) in
        record {
          time = record {
            hour_range = omega (arith, v.hour_range);
            month_range = v.month_range;
            day_range = (omega arith, ground (arith, room, last_day, next));
          };
          later = ground (arith, late, v.hour_range, next, this_day);
          same = (refl, refl);
        }

    module _ (full : ltb (days_in_month t.month t.year) (t.day + 1) ≡ true) where
      is_last : t.day ≡ days_in_month t.month t.year
      is_last = ground (arith, full, last_day, this_day, v.day_range.1)

      carried : IsLater t (carry_month (record next_day { day = 1; month = t.month + 1 }))
      unfolding hours
      carried = elim (Bool-cases (ltb 12 (t.month + 1))) [
        | inl december ↦
            let twelve : t.month ≡ 12 = ground (arith, december, v.month_range) in
            let after : 13 ≡ t.month + 1 = omega (arith, twelve) in
            let next : day_number (t.year + 1) 1 1 ≡ day_number t.year (t.month + 1) 0 + 1 =
              sym (next_year t.year)
              ∙ day_number_add t.year 13 1
              ∙ ap (λ m. day_number t.year m 0 + 1) after in
            rw december (record {
              time = record {
                hour_range = omega (arith, v.hour_range);
                month_range = (omega arith, omega arith);
                day_range =
                    (omega arith, month_not_empty (t.year + 1) 1 (omega arith) (omega arith));
              };
              later = ground (arith, late, v.hour_range, next, this_day, last_day, is_last);
              same = (refl, refl);
            })
        | inr other ↦
            let next = day_number_add t.year (t.month + 1) 1 in
            rw other (record {
              time = record {
                hour_range = omega (arith, v.hour_range);
                month_range = (omega arith, ground (arith, other));
                day_range = (
                  omega arith,
                  month_not_empty t.year (t.month + 1) (omega arith) (ground (arith, other)),
                );
              };
              later = ground (arith, late, v.hour_range, next, this_day, last_day, is_last);
              same = (refl, refl);
            })
      ]

-- For a time of a year from 1901 to 2099, `cmd_time` shows the time eight hours later by the Gregorian
-- calendar, a valid time again.
pub beijing_time-IsLater :
    (t : Time) → IsTime t → 1901 ≤ t.year → t.year ≤ 2099 → IsLater t (beijing_time t)
unfolding beijing_time hours
beijing_time-IsLater t v from to = elim (Bool-cases (leb 24 (u8 (t.hour + 8)))) [
  | inl late ↦
      let day = day_byte t v from to in
      let month : u8 (t.month + 1) ≡ t.month + 1 = omega (arith, v.month_range) in
      elim (Bool-cases (ltb (days_in_month t.month t.year) (t.day + 1))) [
        | inl full ↦ rw (late, day, full, month) (carried t v from to late full)
        | inr room ↦ rw (late, day, room) (same_month t v from to late room)
      ]
  | inr early ↦ rw early (record {
    time = record {
      hour_range = ground (arith, early);
      month_range = v.month_range;
      day_range = v.day_range;
    };
    later = ground (arith, v.hour_range);
    same = (refl, refl);
  })
]

-- In the years that the fourth-year rule takes for leap years and the calendar does not, the first of
-- March never comes in the last eight hours of February.
pub beijing_time_century :
    (t : Time)
    → t.year % 100 ≡ 0
    → t.year % 400 ≢ 0
    → t.month ≡ 2
    → t.day ≡ 28
    → 16 ≤ t.hour
    → t.hour < 24
    → ((beijing_time t).month ≡ 2) × ((beijing_time t).day ≡ 29) × (is_leap t.year ≡ false)
unfolding beijing_time days_in_month
beijing_time_century t century short february last late valid =
    (ground arith, ground arith, ground arith)
