-- ===== src/GoLib/Calendar/Laws.antt =====
-- A date stands for exactly one day, and its parts are in range.
use codewave_timer.Base.{ℕ, zero, suc, ◌+◌, ◌-◌, ◌≤◌, ◌<◌, ◌≡◌, refl, List, [], ◌∷◌, arith, length}
use codewave_timer.GoLib.Calendar.{
  year_length, month_lengths, days_before_year, year_split, month_split, days_before_month,
  month_length, Date, to_date, days_in, from_date,
}

pub year_length-ge : (y : ℕ) → 365 ≤ year_length y
unfolding year_length
year_length-ge y = ground arith

year_split_lem :
    (f y d : ℕ)
    → d < f
    → (days_before_year (year_split f y d).0 + (year_split f y d).1 ≡ days_before_year y + d)
      × ((year_split f y d).1 < year_length (year_split f y d).0)
unfolding year_split days_before_year
year_split_lem zero y d h = absurd (omega arith)
year_split_lem (suc f) y d h =
    ground (arith, year_length-ge y, year_split_lem f (suc y) (d - year_length y))

abbrev total : List ℕ → ℕ
total [] = 0
total (l ∷ ls) = l + total ls

month_split_lem :
    (ls : List ℕ) (d : ℕ)
    → d < total ls
    → (days_before_month ls (month_split ls d).0 + (month_split ls d).1 ≡ d)
      × ((month_split ls d).1 < month_length ls (month_split ls d).0)
      × ((month_split ls d).0 < length ls)
unfolding days_before_month month_split month_length
month_split_lem [] d h = absurd (omega arith)
month_split_lem (l ∷ ls) d h = ground (arith, month_split_lem ls (d - l))

total-month_lengths : (y : ℕ) → total (month_lengths y) ≡ year_length y
unfolding month_lengths year_length
total-month_lengths y = ground arith

length-month_lengths : (y : ℕ) → length (month_lengths y) ≡ 12
unfolding month_lengths
length-month_lengths y = refl

pub record IsDate (t : Date) : Type 0 where
  pub month_pos : 1 ≤ t.month
  pub month_le : t.month ≤ 12
  pub day_pos : 1 ≤ t.day
  pub day_le : t.day ≤ days_in t.year t.month

add_sub_one : (m : ℕ) → m + 1 - 1 ≡ m
add_sub_one m = omega arith

days_before_year_zero : days_before_year 0 ≡ 0
unfolding days_before_year
days_before_year_zero = refl

-- What the two loops of `to_date` return.
record Split (n : ℕ) (y d m r : ℕ) : Type 0 where
  whole : days_before_year y + d ≡ n
  in_year : d < year_length y
  in_months : days_before_month (month_lengths y) m + r ≡ d
  in_month : r < month_length (month_lengths y) m
  few : m < 12

abbrev year_of : ℕ → ℕ × ℕ
year_of n = year_split (suc n) 0 n

abbrev month_of : ℕ → ℕ × ℕ
month_of n = month_split (month_lengths (year_of n).0) (year_of n).1

to_date-Split : (n : ℕ) → Split n (year_of n).0 (year_of n).1 (month_of n).0 (month_of n).1
to_date-Split n =
    let (whole, in_year) = year_split_lem (suc n) 0 n (omega arith) in
    let y : ℕ = (year_of n).0 in
    let (in_months, in_month, few) =
      month_split_lem (month_lengths y) (year_of n).1 (omega (arith, total-month_lengths y)) in
    record {
      whole = omega (arith, days_before_year_zero);
      in_year = in_year;
      in_months = in_months;
      in_month = in_month;
      few = omega (arith, length-month_lengths y);
    }

-- A day is the day of its date.
pub from_date-to_date : (n : ℕ) → from_date (to_date n) ≡ n
unfolding to_date from_date
from_date-to_date n = rw add_sub_one (omega (arith, to_date-Split n))

-- The month and the day of a date are in range.
pub to_date-IsDate : (n : ℕ) → IsDate (to_date n)
unfolding to_date days_in
to_date-IsDate n = record {
  month_pos = omega arith;
  month_le = omega (arith, to_date-Split n);
  day_pos = omega arith;
  day_le = rw add_sub_one (omega (arith, to_date-Split n));
}
