-- ===== src/GoLib/Calendar.antt =====
-- The proleptic Gregorian calendar, days counted from 1 January of the year 0.
pub mod Laws
use codewave_timer.Base.{
  ℕ, zero, suc, ◌+◌, ◌-◌, ◌%◌, ◌≡◌, refl, Bool, not, ◌&&◌, ◌||◌, List, [], ◌∷◌, ltb, ◌==◌,
  if◌then◌else◌,
}

pub is_leap : ℕ → Bool
is_leap y = y % 4 == 0 && (not (y % 100 == 0) || y % 400 == 0)

unfoldable pub year_length : ℕ → ℕ
unfolding is_leap
year_length y = if is_leap y then 366 else 365

unfoldable pub month_lengths : ℕ → List ℕ
unfolding is_leap
month_lengths y =
    31 ∷ (if is_leap y then 29 else 28) ∷ 31 ∷ 30 ∷ 31 ∷ 30 ∷ 31 ∷ 31 ∷ 30 ∷ 31 ∷ 30 ∷ 31 ∷ []

-- The days before the first day of a year.
unfoldable pub days_before_year : ℕ → ℕ
days_before_year zero = 0
days_before_year (suc y) = days_before_year y + year_length y

-- The year, from `y` on, of day `d` of year `y`, and the day in it; the first argument is fuel.
unfoldable pub year_split : ℕ → ℕ → ℕ → ℕ × ℕ
year_split zero y d = (y, d)
year_split (suc f) y d =
    let rest = year_split f (suc y) (d - year_length y) in
    if ltb d (year_length y) then (y, d) else rest

-- The month and the day in it, both from 0, of a day of the year.
unfoldable pub month_split : List ℕ → ℕ → ℕ × ℕ
month_split [] d = (0, d)
month_split (l ∷ ls) d =
    let (m, r) = month_split ls (d - l) in if ltb d l then (0, d) else (suc m, r)

unfoldable pub days_before_month : List ℕ → ℕ → ℕ
days_before_month [] m = 0
days_before_month (l ∷ ls) zero = 0
days_before_month (l ∷ ls) (suc m) = l + days_before_month ls m

unfoldable pub month_length : List ℕ → ℕ → ℕ
month_length [] m = 0
month_length (l ∷ ls) zero = l
month_length (l ∷ ls) (suc m) = month_length ls m

pub record Date : Type 0 where
  pub year : ℕ
  pub month : ℕ  -- from 1
  pub day : ℕ  -- from 1

unfoldable pub to_date : ℕ → Date
to_date n =
    let (y, d) = year_split (suc n) 0 n in
    let (m, r) = month_split (month_lengths y) d in record { year = y; month = m + 1; day = r + 1 }

unfoldable pub days_in : ℕ → ℕ → ℕ
days_in y m = month_length (month_lengths y) (m - 1)

unfoldable pub from_date : Date → ℕ
from_date t =
    days_before_year t.year + days_before_month (month_lengths t.year) (t.month - 1) + t.day - 1

-- 1 January 1970, and the last day of a leap year's February.
epoch_date : from_date (record { year = 1970; month = 1; day = 1 }) ≡ 719528
unfolding from_date days_before_year days_before_month month_lengths year_length
epoch_date = refl

leap_day : to_date 739310 ≡ record { year = 2024; month = 2; day = 29 }
unfolding to_date year_split month_split month_lengths year_length
leap_day = refl
