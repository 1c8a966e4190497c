-- ===== src/SystemTime/Inverse.antt =====
-- A second back and a second forth undo one another on valid times.
use luacom.Prelude.{
  List, [], ◌∷◌, get_elem?, get_elem?-lt, Option-cases, inl, inr, ℕ, zero, suc, ◌+◌, ◌-◌, ◌≤◌, ◌<◌,
  ◌≡◌, ◌↔◌, none, some, arith,
}
use luacom.SystemTime.{
  SystemTime, month_days, days_in_month, previous_day, decrement_second, next_day, increment_second,
  round_to_second,
}

-- A date from the year 100 to the year 9999, and a time of day.
pub record IsValid (t : SystemTime) : Type 0 where
  pub year_from : 100 ≤ t.year
  pub year_to : t.year ≤ 9999
  pub month_from : 1 ≤ t.month
  pub month_to : t.month ≤ 12
  pub weekday_to : t.day_of_week ≤ 6
  pub day_from : 1 ≤ t.day
  pub day_to : t.day ≤ days_in_month t.year t.month
  pub hour_to : t.hour < 24
  pub minute_to : t.minute < 60
  pub second_to : t.second < 60

abbrev set_clock : SystemTime → ℕ → ℕ → ℕ → SystemTime
set_clock t h m s = record t { second = s; minute = m; hour = h }

set_clock-IsValid :
    (t : SystemTime) (h m s : ℕ)
    → IsValid t
    → (h < 24) × (m < 60) × (s < 60)
    → IsValid (set_clock t h m s)
set_clock-IsValid t h m s v b = omega arith

AllAtLeast : ℕ → List ℕ → Type 0
AllAtLeast n [] = Unit {0}
AllAtLeast n (x ∷ xs) = (n ≤ x) × AllAtLeast n xs

get_elem?-AllAtLeast : (n d i : ℕ) (xs : List ℕ) → AllAtLeast n xs → get_elem? xs i ≡ some d → n ≤ d
unfolding AllAtLeast
get_elem?-AllAtLeast n d i [] a e = cc
get_elem?-AllAtLeast n d zero (x ∷ xs) a e = ground (arith, a.0)
get_elem?-AllAtLeast n d (suc i) (x ∷ xs) a e = get_elem?-AllAtLeast n d i xs a.1 e

-- Every month has at least 28 days.
days_bounds : (y m : ℕ) → 1 ≤ m → m ≤ 12 → 28 ≤ days_in_month y m
unfolding days_in_month AllAtLeast
days_bounds y m h k =
    let (d, e) = get_elem?-lt month_days (m - 1) (omega arith) in
    let long = get_elem?-AllAtLeast 28 d (m - 1) month_days (omega arith) e in
    ground (arith, long, e)

days_of_december : (y : ℕ) → days_in_month y 12 ≡ 31
unfolding days_in_month
days_of_december y = ground arith

previous_day-IsValid : (t u : SystemTime) → IsValid t → previous_day t ≡ some u → IsValid u
unfolding previous_day
previous_day-IsValid t u v e =
    ground (arith, days_bounds t.year (t.month - 1), days_of_december (t.year - 1))

next_day-previous_day :
    (t u : SystemTime) → IsValid t → previous_day t ≡ some u → next_day u ≡ some t
unfolding previous_day next_day
next_day-previous_day t u v e = ground (
  arith,
  days_bounds t.year t.month,
  days_bounds t.year (t.month - 1),
  days_of_december (t.year - 1),
)

next_day-IsValid : (t u : SystemTime) → IsValid t → next_day t ≡ some u → IsValid u
unfolding next_day
next_day-IsValid t u v e =
    ground (arith, days_bounds t.year (t.month + 1), days_bounds (t.year + 1) 1)

previous_day-next_day :
    (t u : SystemTime) → IsValid t → next_day t ≡ some u → previous_day u ≡ some t
unfolding previous_day next_day
previous_day-next_day t u v e = ground (arith, days_of_december t.year)

-- A valid time that can be set back by a second is valid afterwards, and setting it forth again
-- restores it.
pub increment-decrement :
    (t u : SystemTime)
    → IsValid t
    → decrement_second t ≡ some u
    → (increment_second u ≡ some t) × IsValid u
unfolding decrement_second increment_second
increment-decrement t u v e = ground (
  arith,
  previous_day-IsValid (set_clock t 23 59 59) u (set_clock-IsValid t 23 59 59 v (omega arith)),
  next_day-previous_day (set_clock t 23 59 59) u (set_clock-IsValid t 23 59 59 v (omega arith)),
)

-- A valid time that can be set forth by a second is valid afterwards, and setting it back again
-- restores it.
pub decrement-increment :
    (t u : SystemTime)
    → IsValid t
    → increment_second t ≡ some u
    → (decrement_second u ≡ some t) × IsValid u
unfolding decrement_second increment_second
decrement-increment t u v e = ground (
  arith,
  next_day-IsValid (set_clock t 0 0 0) u (set_clock-IsValid t 0 0 0 v (omega arith)),
  previous_day-next_day (set_clock t 0 0 0) u (set_clock-IsValid t 0 0 0 v (omega arith)),
)

-- Of the valid times exactly the first second of the year 100 cannot be set back.
pub decrement-ne-none :
    (t : SystemTime)
    → IsValid t
    → (decrement_second t ≡ none) ↔ (
        (t.year ≡ 100)
        × (t.month ≡ 1)
        × (t.day ≡ 1)
        × (t.hour ≡ 0)
        × (t.minute ≡ 0)
        × (t.second ≡ 0))
unfolding decrement_second previous_day
decrement-ne-none t v = ground arith

-- Of the valid times exactly the last second of the year 9999 cannot be set forth.
pub increment-ne-none :
    (t : SystemTime)
    → IsValid t
    → (increment_second t ≡ none) ↔ (
        (t.year ≡ 9999)
        × (t.month ≡ 12)
        × (t.day ≡ 31)
        × (t.hour ≡ 23)
        × (t.minute ≡ 59)
        × (t.second ≡ 59))
unfolding increment_second next_day
increment-ne-none t v = ground (arith, days_bounds t.year t.month, days_of_december t.year)

-- Rounding a valid time gives a valid time of whole seconds, on which rounding does nothing.
pub round_twice :
    (t u : SystemTime)
    → IsValid t
    → round_to_second t ≡ some u
    → (u.milliseconds ≡ 0) × IsValid u × (round_to_second u ≡ some u)
unfolding round_to_second
round_twice t u v e = elim (Option-cases (increment_second t)) [
  | inl f ↦ ground (arith, f)
  | inr (w, f) ↦ let after = (decrement-increment t w v f).1 in ground (arith, f, after)
]
