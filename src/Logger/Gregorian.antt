-- ===== src/Logger/Gregorian.antt =====
-- The Gregorian calendar by its own counts, against which the loops of `epoch_to_datetime` are proved.
use ferro_vela.Prelude.{
  ℕ, zero, suc, ◌+◌, ◌-◌, ◌*◌, ◌/◌, ◌≤◌, ◌≡◌, ap, inl, inr, List, [], ◌∷◌, arith, if◌then◌else◌,
  Bool-cases,
}
use ferro_vela.Logger.Loops.{days_of_years}
use ferro_vela.Logger.Clock.{is_leap, days_in_year, month_lengths}

-- The leap years up to a year.
abbrev pub leaps : ℕ → ℕ
leaps y = y / 4 - y / 100 + y / 400

-- The days before a year since 1970; up to 1969 there are 477 leap years.
abbrev pub days_before : ℕ → ℕ
days_before y = 365 * (y - 1970) + (leaps (y - 1) - 477)

-- February has one day more in a year that adds to the leap years.
abbrev pub months_of : ℕ → List ℕ
months_of y =
    31 ∷ (28 + (leaps y - leaps (y - 1))) ∷ 31 ∷ 30 ∷ 31 ∷ 30 ∷ 31 ∷ 31 ∷ 30 ∷ 31 ∷ 30 ∷ 31 ∷ []

-- `is_leap` is true of the years that add to the leap years.
is_leap-leaps : (y : ℕ) → 1 ≤ y → (if is_leap y then 1 else 0) + leaps (y - 1) ≡ leaps y
unfolding is_leap
is_leap-leaps y h = ground arith

leaps_grow : (y : ℕ) → 1 ≤ y → leaps (y - 1) ≤ leaps y
leaps_grow y h = omega (arith, is_leap-leaps y h)

days_in_year-leaps : (y : ℕ) → 1 ≤ y → days_in_year y + leaps (y - 1) ≡ 365 + leaps y
unfolding days_in_year
days_in_year-leaps y h = elim (Bool-cases (is_leap y)) [
  | inl leap ↦ rw leap (omega (arith, rw leap at (is_leap-leaps y h)))
  | inr common ↦ rw common (omega (arith, rw common at (is_leap-leaps y h)))
]

pub month_lengths-months_of : (y : ℕ) → 1 ≤ y → month_lengths y ≡ months_of y
unfolding month_lengths
month_lengths-months_of y h = elim (Bool-cases (is_leap y)) [
  | inl leap ↦ rw leap (ap february (omega (arith, rw leap at (is_leap-leaps y h))))
  | inr common ↦ rw common (ap february (omega (arith, rw common at (is_leap-leaps y h))))
]
  where
    february : ℕ → List ℕ
    february n = 31 ∷ n ∷ 31 ∷ 30 ∷ 31 ∷ 30 ∷ 31 ∷ 31 ∷ 30 ∷ 31 ∷ 30 ∷ 31 ∷ []

-- The loop over the years counts the days of the calendar.
days_of_years-leaps :
    (n first : ℕ)
    → 1 ≤ first
    → days_of_years first n + leaps (first - 1) ≡ 365 * n + leaps (first + n - 1)
days_of_years-leaps zero first h = omega arith
days_of_years-leaps (suc n) first h =
    omega (arith, days_of_years-leaps n (first + 1) (omega arith), days_in_year-leaps first h)

pub days_of_years-days_before : (n : ℕ) → days_of_years 1970 n ≡ days_before (1970 + n)
days_of_years-days_before n = omega (arith, days_of_years-leaps n 1970 (omega arith))
