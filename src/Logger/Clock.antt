-- ===== src/Logger/Clock.antt =====
-- `epoch_to_datetime`, `is_leap` and `format_timestamp`.
use ferro_vela.Prelude.{
  not, ◌∷◌, ◌||◌, List, Bool, ◌==◌, suc, ◌/◌, ◌%◌, ◌&&◌, length, ◌-◌, if◌then◌else◌, zero, [], ◌++◌,
  ◌+◌, ◌^◌, ltb, ℕ,
}
use ferro_vela.Text.{Str}
use ferro_vela.Text.Number.{to_string}

unfoldable pub is_leap : ℕ → Bool
is_leap year = (year % 4 == 0 && not (year % 100 == 0)) || year % 400 == 0

unfoldable pub days_in_year : ℕ → ℕ
unfolding is_leap
days_in_year year = if is_leap year then 366 else 365

-- The loop that counts the years off: the year, and the days left in it. A year has a day at least,
-- so that one unit of fuel more than there are days is enough.
unfoldable pub count_years : ℕ → ℕ → ℕ → ℕ × ℕ
count_years zero year remaining = (year, remaining)
count_years (suc fuel) year remaining =
    let rest = count_years fuel (year + 1) (remaining - days_in_year year) in
    if ltb remaining (days_in_year year) then (year, remaining) else rest

unfoldable pub month_lengths : ℕ → List ℕ
unfolding is_leap
month_lengths year =
    31 ∷ (if is_leap year then 29 else 28) ∷ 31 ∷ 30 ∷ 31 ∷ 30 ∷ 31 ∷ 31 ∷ 30 ∷ 31 ∷ 30 ∷ 31 ∷ []

-- The loop over the months; `month` is a `u8`.
unfoldable pub count_months : List ℕ → ℕ → ℕ → ℕ × ℕ
count_months [] month remaining = (month, remaining)
count_months (m ∷ ms) month remaining =
    let rest = count_months ms ((month + 1) % 2 ^ 8) (remaining - m) in
    if ltb remaining m then (month, remaining) else rest

pub record DateTime : Type 0 where
  pub year : ℕ
  pub month : ℕ
  pub day : ℕ
  pub hour : ℕ
  pub minute : ℕ
  pub second : ℕ

abbrev pub date_of : ℕ → ℕ × ℕ → ℕ → DateTime
date_of year (month, remaining) secs = record {
  year = year;
  month = month;
  day = (remaining + 1) % 2 ^ 8;
  hour = (secs / 60 / 60 % 24) % 2 ^ 8;
  minute = (secs / 60 % 60) % 2 ^ 8;
  second = (secs % 60) % 2 ^ 8;
}

abbrev pub in_year : ℕ × ℕ → ℕ → DateTime
in_year (year, remaining) secs = date_of year (count_months (month_lengths year) 1 remaining) secs

unfoldable pub epoch_to_datetime : ℕ → DateTime
epoch_to_datetime secs =
    let days = secs / 60 / 60 / 24 in in_year (count_years (days + 1) 1970 days) secs

-- A number with leading zeros up to a width.
unfoldable pad : ℕ → Str → Str
pad width s = zeros (width - length s) ++ s
  where
    zeros : ℕ → Str
    zeros zero = []
    zeros (suc n) = b'0' ∷ zeros n

unfoldable pub format_datetime : DateTime → Str
unfolding pad to_string
format_datetime d =
    pad 4 (to_string d.year)
    ++ (b'-'
        ∷ (pad 2 (to_string d.month)
            ++ (b'-'
                ∷ (pad 2 (to_string d.day)
                    ++ (b'T'
                        ∷ (pad 2 (to_string d.hour)
                            ++ (b':'
                                ∷ (pad 2 (to_string d.minute)
                                    ++ (b':' ∷ (pad 2 (to_string d.second) ++ (b'Z' ∷ [])))))))))))
