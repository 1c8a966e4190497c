-- ===== src/SystemTime.antt =====
-- The calendar arithmetic of src/library/tUtil.cpp: one second back and forth on a SYSTEMTIME, and
-- the rounding to the nearest second.
pub mod Inverse
use luacom.Prelude.{
  ℕ, zero, suc, ◌+◌, ◌-◌, ◌%◌, Bool, true, false, not, ◌&&◌, ◌||◌, List, [], ◌∷◌, Option, none,
  some, ◌==◌, ltb, leb, if◌then◌else◌, get_elem?,
}

-- SYSTEMTIME, of unsigned 16-bit fields.
pub record SystemTime : Type 0 where
  pub year : ℕ
  pub month : ℕ
  pub day_of_week : ℕ
  pub day : ℕ
  pub hour : ℕ
  pub minute : ℕ
  pub second : ℕ
  pub milliseconds : ℕ

unfoldable pub is_leap_year : ℕ → Bool
is_leap_year year = year % 4 == 0 && (not (year % 100 == 0) || year % 400 == 0)

abbrev pub month_days : List ℕ
month_days = 31 ∷ 28 ∷ 31 ∷ 30 ∷ 31 ∷ 30 ∷ 31 ∷ 31 ∷ 30 ∷ 31 ∷ 30 ∷ 31 ∷ []

unfoldable pub days_in_month : ℕ → ℕ → ℕ
unfolding is_leap_year
days_in_month year month =
    if ltb month 1 || ltb 12 month
    then 0
    else if month == 2 && is_leap_year year
    then 29
    else elim (get_elem? month_days (month - 1)) [ none ↦ 0 | some d ↦ d ]

abbrev weekday : ℕ → ℕ → ℕ
weekday step dow = if leb dow 6 then (dow + step) % 7 else dow

-- The day before, where the time of day has passed midnight backwards.
unfoldable pub previous_day : SystemTime → Option SystemTime
previous_day t =
    let dow = weekday 6 t.day_of_week in
    if ltb 1 t.day
    then some (record t { day = t.day - 1; day_of_week = dow })
    else if ltb 1 t.month
    then some (record t {
      month = t.month - 1;
      day = days_in_month t.year (t.month - 1);
      day_of_week = dow;
    })
    else if leb t.year 100
    then none
    else some (record t {
      year = t.year - 1;
      month = 12;
      day = days_in_month (t.year - 1) 12;
      day_of_week = dow;
    })

-- `none` is the result FALSE, which leaves the argument as it was.
unfoldable pub decrement_second : SystemTime → Option SystemTime
unfolding previous_day
decrement_second t =
    if ltb 0 t.second
    then some (record t { second = t.second - 1 })
    else if ltb 0 t.minute
    then some (record t { second = 59; minute = t.minute - 1 })
    else if ltb 0 t.hour
    then some (record t { second = 59; minute = 59; hour = t.hour - 1 })
    else previous_day (record t { second = 59; minute = 59; hour = 23 })

-- The day after, where the time of day has passed midnight.
unfoldable pub next_day : SystemTime → Option SystemTime
next_day t =
    let dow = weekday 1 t.day_of_week in
    let days = days_in_month t.year t.month in
    if days == 0
    then none
    else if ltb t.day days
    then some (record t { day = t.day + 1; day_of_week = dow })
    else if ltb t.month 12
    then some (record t { day = 1; month = t.month + 1; day_of_week = dow })
    else if leb 9999 t.year
    then none
    else some (record t { day = 1; year = t.year + 1; month = 1; day_of_week = dow })

unfoldable pub increment_second : SystemTime → Option SystemTime
unfolding next_day
increment_second t =
    if ltb t.second 59
    then some (record t { second = t.second + 1 })
    else if ltb t.minute 59
    then some (record t { second = 0; minute = t.minute + 1 })
    else if ltb t.hour 23
    then some (record t { second = 0; minute = 0; hour = t.hour + 1 })
    else next_day (record t { second = 0; minute = 0; hour = 0 })

abbrev clear_milliseconds : SystemTime → SystemTime
clear_milliseconds t = record t { milliseconds = 0 }

-- RoundSystemTimeToNearestSecond, on an argument that is not null.
unfoldable pub round_to_second : SystemTime → Option SystemTime
unfolding increment_second
round_to_second t =
    if ltb t.milliseconds 500
    then some (clear_milliseconds t)
    else elim (increment_second t) [ none ↦ none | some u ↦ some (clear_milliseconds u) ]
