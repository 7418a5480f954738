-- ===== src/Logger/Loops.antt =====
-- What the loops of `epoch_to_datetime` over the years and over the months find.
use ferro_vela.Prelude.{
  false, ltb→lt, some, ◌^◌, get_elem?, length, inl, refl, ◌%◌, ◌∷◌, arith, ◌<◌, ◌≤◌, ltb, inr,
  Bool-cases, take, suc, zero, [], List, ◌+◌, ◌≡◌, ◌-◌, ℕ,
}
use ferro_vela.Logger.Clock.{month_lengths, count_years, days_in_year, is_leap, count_months}

not_below : (a b : ℕ) → ltb a b ≡ false → b ≤ a
not_below a b h = ground arith

-- The days of the calendar before a year, counted from a first one, and before a month of a year.
abbrev pub days_of_years : ℕ → ℕ → ℕ
days_of_years first zero = 0
days_of_years first (suc n) = days_in_year first + days_of_years (first + 1) n

abbrev pub sum : List ℕ → ℕ
sum [] = 0
sum (x ∷ xs) = x + sum xs

days_in_year_bounded : (y : ℕ) → (365 ≤ days_in_year y) × (days_in_year y ≤ 366)
unfolding days_in_year
days_in_year_bounded y = ground arith

pub days_in_year-sum : (y : ℕ) → sum (month_lengths y) ≡ days_in_year y
unfolding days_in_year month_lengths
days_in_year-sum y = elim (Bool-cases (is_leap y)) [
  | inl leap ↦ rw leap refl
  | inr common ↦ rw common refl
]

-- What the loop over the years has found: the years before, and a day of the year.
pub record InYear (first days : ℕ) (r : ℕ × ℕ) : Type 0 where
  pub years : ℕ
  pub reached : r.0 ≡ first + years
  pub total : days_of_years first years + r.1 ≡ days
  pub inside : r.1 < days_in_year r.0

InYear-later :
    (first days : ℕ) (r : ℕ × ℕ)
    → days_in_year first ≤ days
    → InYear (first + 1) (days - days_in_year first) r
    → InYear first days r
InYear-later first days r h found = record {
  years = suc found.years;
  reached = omega (arith, found.reached);
  total = omega (arith, found.total);
  inside = found.inside;
}

pub count_years-InYear :
    (fuel first days : ℕ) → days < fuel → InYear first days (count_years fuel first days)
unfolding count_years
count_years-InYear zero first days enough = absurd (omega arith)
count_years-InYear (suc fuel) first days enough =
    elim (Bool-cases (ltb days (days_in_year first))) [
      | inl here ↦ rw here (record {
        years = 0;
        reached = omega arith;
        total = omega arith;
        inside = ltb→lt _ _ here;
      })
      | inr later ↦
          let over = not_below days (days_in_year first) later in
          rw later (
            InYear-later first days _ over (
              count_years-InYear fuel (first + 1) (days - days_in_year first)
                (omega (arith, days_in_year_bounded first))))
    ]

-- What the loop over the months has found: the months before, and a day of the month.
pub record InMonth (lengths : List ℕ) (first days : ℕ) (r : ℕ × ℕ) : Type 0 where
  pub months : ℕ
  pub size : ℕ
  pub reached : r.0 ≡ first + months
  pub is_month : get_elem? lengths months ≡ some size
  pub total : sum (take months lengths) + r.1 ≡ days
  pub inside : r.1 < size

InMonth-later :
    (m : ℕ) (ms : List ℕ) (first days : ℕ) (r : ℕ × ℕ)
    → m ≤ days
    → InMonth ms (first + 1) (days - m) r
    → InMonth (m ∷ ms) first days r
InMonth-later m ms first days r h found = record {
  months = suc found.months;
  size = found.size;
  reached = omega (arith, found.reached);
  is_month = found.is_month;
  total = omega (arith, found.total);
  inside = found.inside;
}

next_month : (month : ℕ) → month + 1 ≤ 255 → (month + 1) % 2 ^ 8 ≡ month + 1
next_month month h = omega arith

pub count_months-InMonth :
    (ms : List ℕ) (first days : ℕ)
    → first + length ms ≤ 255
    → days < sum ms
    → InMonth ms first days (count_months ms first days)
unfolding count_months
count_months-InMonth [] first days small h = absurd (omega arith)
count_months-InMonth (m ∷ ms) first days small h = elim (Bool-cases (ltb days m)) [
  | inl here ↦ rw here (record {
    months = 0;
    size = m;
    reached = omega arith;
    is_month = refl;
    total = omega arith;
    inside = ltb→lt _ _ here;
  })
  | inr later ↦
      let over = not_below days m later in
      rw (later, next_month first (omega arith))
        (InMonth-later m ms first days _ over
          (count_months-InMonth ms (first + 1) (days - m) (omega arith) (omega arith)))
]
