-- ===== src/Logger/Calendar.antt =====
-- The timestamps as dates of the Gregorian calendar.
use ferro_vela.Prelude.{
  ℕ, zero, suc, ◌+◌, ◌-◌, ◌*◌, ◌/◌, ◌%◌, ◌≤◌, ◌<◌, ◌≡◌, refl, sym, ap, ◌∙◌, subst, inl, inr, true,
  some, List, [], ◌∷◌, arith, leb, Bool-cases, length, take, get_elem?, all, All,
}
use ferro_vela.Logger.Gregorian.{
  days_before, months_of, month_lengths-months_of, days_of_years-days_before,
}
use ferro_vela.Logger.Clock.{
  in_year, date_of, epoch_to_datetime, month_lengths, count_years, is_leap, DateTime, count_months,
}
use ferro_vela.Logger.Loops.{
  days_of_years, sum, days_in_year-sum, InYear, count_years-InYear, InMonth, count_months-InMonth,
}

-- The second of a date since 1970, by the calendar's own counts.
pub seconds_of : DateTime → ℕ
seconds_of d =
    (((days_before d.year + sum (take (d.month - 1) (months_of d.year)) + (d.day - 1)) * 24
            + d.hour)
          * 60
        + d.minute)
      * 60
    + d.second

-- A date of the calendar from 1970 on.
pub record IsDate (d : DateTime) : Type 0 where
  pub size : ℕ
  pub year_from : 1970 ≤ d.year
  pub month_from : 1 ≤ d.month
  pub is_month : get_elem? (months_of d.year) (d.month - 1) ≡ some size
  pub day_from : 1 ≤ d.day
  pub day_to : d.day ≤ size
  pub hour_to : d.hour < 24
  pub minute_to : d.minute < 60
  pub second_to : d.second < 60

some_injective {ℓ} : {A : Type ℓ} {a b : A} → some a ≡ some b → a ≡ b
some_injective e = cc

all-All : (xs : List ℕ) → all (λ m. leb m 31) xs ≡ true → All (λ m. m ≤ 31) xs
all-All [] h = tt
all-All (x ∷ xs) h = (ground arith, all-All xs (ground arith))

months_bounded : (y : ℕ) → All (λ m. m ≤ 31) (month_lengths y)
unfolding month_lengths
months_bounded y = all-All (month_lengths y) (checked y)
  where
    checked : (y : ℕ) → all (λ m. leb m 31) (month_lengths y) ≡ true
    checked y = elim (Bool-cases (is_leap y)) [
      | inl leap ↦ rw (leap, month_lengths) refl
      | inr common ↦ rw (common, month_lengths) refl
    ]

get_elem?-All {ℓ κ} :
    {A : Type ℓ} (P : A → Type κ) (xs : List A) (i : ℕ) {x : A}
    → All P xs
    → get_elem? xs i ≡ some x
    → P x
get_elem?-All P [] i a e = cc
get_elem?-All P (x ∷ xs) zero a e = subst P (some_injective e) a.0
get_elem?-All P (x ∷ xs) (suc i) a e = get_elem?-All P xs i a.1 e

length-month_lengths : (y : ℕ) → length (month_lengths y) ≡ 12
unfolding month_lengths
length-month_lengths y = refl

-- What the two loops have found, put together.
record Found (secs : ℕ) (d : DateTime) : Type 0 where
  days : ℕ
  years : ℕ
  months : ℕ
  rest : ℕ
  size : ℕ
  is_days : days ≡ secs / 60 / 60 / 24
  is_year : d.year ≡ 1970 + years
  is_month : d.month ≡ 1 + months
  is_day : d.day ≡ rest + 1
  is_hour : d.hour ≡ secs / 60 / 60 % 24
  is_minute : d.minute ≡ secs / 60 % 60
  is_second : d.second ≡ secs % 60
  length_of : get_elem? (month_lengths d.year) months ≡ some size
  inside : rest < size
  total : days_of_years 1970 years + (sum (take months (month_lengths d.year)) + rest) ≡ days

date_of-Found :
    (year secs : ℕ) (y : ℕ × ℕ) (r : ℕ × ℕ)
    → y.0 ≡ year
    → InYear 1970 (secs / 60 / 60 / 24) y
    → InMonth (month_lengths year) 1 y.1 r
    → Found secs (date_of year r secs)
date_of-Found year secs y (month, remaining) same fy fm =
    let small =
      get_elem?-All (λ m. m ≤ 31) (month_lengths year) fm.months (months_bounded year)
        fm.is_month in
    record {
      days = secs / 60 / 60 / 24;
      years = fy.years;
      months = fm.months;
      rest = remaining;
      size = fm.size;
      is_days = refl;
      is_year = omega (arith, fy.reached, same);
      is_month = fm.reached;
      is_day = omega (arith, small, fm.inside);
      is_hour = omega arith;
      is_minute = omega arith;
      is_second = omega arith;
      length_of = fm.is_month;
      inside = fm.inside;
      total = omega (arith, fy.total, fm.total);
    }

in_year-Found :
    (secs : ℕ) (y : ℕ × ℕ) → InYear 1970 (secs / 60 / 60 / 24) y → Found secs (in_year y secs)
in_year-Found secs (year, remaining) fy =
    date_of-Found year secs (year, remaining) (count_months (month_lengths year) 1 remaining) refl
      fy
      (count_months-InMonth (month_lengths year) 1 remaining
        (omega (arith, length-month_lengths year))
        (omega (arith, fy.inside, days_in_year-sum year)))

epoch_to_datetime-Found : (secs : ℕ) → Found secs (epoch_to_datetime secs)
unfolding epoch_to_datetime
epoch_to_datetime-Found secs =
    in_year-Found secs (count_years (secs / 60 / 60 / 24 + 1) 1970 (secs / 60 / 60 / 24))
      (count_years-InYear (secs / 60 / 60 / 24 + 1) 1970 (secs / 60 / 60 / 24) (omega arith))

same_months : (secs : ℕ) (d : DateTime) → Found secs d → month_lengths d.year ≡ months_of d.year
same_months secs d f = month_lengths-months_of d.year (omega (arith, f.is_year))

Found-IsDate : (secs : ℕ) (d : DateTime) → Found secs d → IsDate d
Found-IsDate secs d f = record {
  size = f.size;
  year_from = omega (arith, f.is_year);
  month_from = omega (arith, f.is_month);
  is_month =
      ap (get_elem? (months_of d.year)) (omega (arith, f.is_month))
      ∙ (ap (λ (l : List ℕ). get_elem? l f.months) (sym (same_months secs d f)) ∙ f.length_of);
  day_from = omega (arith, f.is_day);
  day_to = omega (arith, f.is_day, f.inside);
  hour_to = omega (arith, f.is_hour);
  minute_to = omega (arith, f.is_minute);
  second_to = omega (arith, f.is_second);
}

back_to_months : (d : DateTime) (months : ℕ) → d.month ≡ 1 + months → d.month - 1 ≡ months
back_to_months d months h = omega arith

Found-seconds_of : (secs : ℕ) (d : DateTime) → Found secs d → seconds_of d ≡ secs
unfolding seconds_of
Found-seconds_of secs d f =
    let days : days_of_years 1970 f.years ≡ days_before d.year =
      days_of_years-days_before f.years ∙ ap days_before (sym f.is_year) in
    rw (sym days, sym (same_months secs d f), back_to_months d f.months f.is_month)
      (omega (arith, f.total, f.is_days, f.is_day, f.is_hour, f.is_minute, f.is_second))

-- Every second since 1970 is turned into a date of the Gregorian calendar, with the month, the day, the
-- hour, the minute and the second in their ranges, and the calendar counts back from this date to the
-- same second. The calendar is by its count of leap years, not by the loops of the code.
pub epoch_to_datetime-IsDate :
    (secs : ℕ) → IsDate (epoch_to_datetime secs) × (seconds_of (epoch_to_datetime secs) ≡ secs)
epoch_to_datetime-IsDate secs = (
  Found-IsDate secs _ (epoch_to_datetime-Found secs),
  Found-seconds_of secs _ (epoch_to_datetime-Found secs),
)
