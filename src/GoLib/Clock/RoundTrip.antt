-- ===== src/GoLib/Clock/RoundTrip.antt =====
-- A minute that is printed is read back, and its text has no underscore.
use codewave_timer.Base.{
  ℕ, zero, suc, ◌-◌, ◌*◌, ◌/◌, ◌%◌, ◌≤◌, ◌<◌, ◌≡◌, Bool, true, false, List, [], ◌∷◌, ◌++◌, arith,
  ap, ◌≢◌, All, Bytes, ok, Lacks, All-append,
}
use codewave_timer.GoLib.Calendar.{Date, to_date, days_in, month_length, month_lengths}
use codewave_timer.GoLib.Calendar.Laws.{to_date-IsDate, from_date-to_date}
use codewave_timer.GoLib.Decimal.RoundTrip.{format_nat-Lacks}
use codewave_timer.GoLib.Clock.{
  Time, Location, minute, wall, of_wall, pad2, pad4, format_wall, format_minute, get_num, get_year,
  literal, space, valid, finish, parse_wall, parse_minute,
}

get_num-pad2 :
    (fixed : Bool) (n : ℕ) (s : Bytes) → n < 100 → get_num fixed (pad2 n ++ s) ≡ ok (n, s)
unfolding get_num pad2
get_num-pad2 fixed n s h = ground arith

get_year-pad4 : (n : ℕ) (s : Bytes) → n < 10000 → get_year (pad4 n ++ s) ≡ ok (n, s)
unfolding get_year pad4
get_year-pad4 n s h = ground arith

literal_self : (c : ℕ) (s : Bytes) → literal c (c ∷ s) ≡ ok s
unfolding literal
literal_self c s = ground arith

-- A padded number starts with a digit, which is no space.
space-pad2 : (n : ℕ) (s : Bytes) → n < 100 → space (b' ' ∷ (pad2 n ++ s)) ≡ ok (pad2 n ++ s)
unfolding space pad2
space-pad2 n s h = ground arith

hour_small : (m : ℕ) → m % 1440 / 60 < 100
hour_small m = omega arith

minute_small : (m : ℕ) → m % 60 < 100
minute_small m = omega arith

module _ (m : ℕ) where
  abbrev date : Date
  date = to_date (m / 1440)

  finish_lem : finish date.year date.month date.day (m % 1440 / 60) (m % 60) [] ≡ ok m
  unfolding finish valid
  finish_lem = ground (arith, to_date-IsDate (m / 1440), from_date-to_date (m / 1440))

month_length-le : (n : ℕ) (ls : List ℕ) (m : ℕ) → All (λ l. l ≤ n) ls → month_length ls m ≤ n
unfolding month_length
month_length-le n [] m h = omega arith
month_length-le n (l ∷ ls) zero h = h.0
month_length-le n (l ∷ ls) (suc m) h = month_length-le n ls m h.1

days_in-le : (y mo : ℕ) → days_in y mo ≤ 31
unfolding days_in month_lengths
days_in-le y mo = month_length-le 31 _ (mo - 1) (ground arith)

date_small : (m : ℕ) → ((date m).month < 100) × ((date m).day < 100)
date_small m = omega (arith, to_date-IsDate (m / 1440), days_in-le (date m).year (date m).month)

get_num-pad2_end : (n : ℕ) → n < 100 → get_num true (pad2 n) ≡ ok (n, [])
unfolding get_num pad2
get_num-pad2_end n h = ground arith

pub parse_wall-format_wall :
    (m : ℕ) → (to_date (m / 1440)).year < 10000 → parse_wall (format_wall m) ≡ ok m
unfolding parse_wall format_wall
parse_wall-format_wall m h =
    rw
      (
        get_year-pad4 _ _ h,
        literal_self,
        get_num-pad2 true _ _ (date_small m).0,
        literal_self,
        get_num-pad2 true _ _ (date_small m).1,
        space-pad2 _ _ (hour_small m),
        get_num-pad2 false _ _ (hour_small m),
        literal_self,
        get_num-pad2_end _ (minute_small m),
      )
      (finish_lem m)

-- A minute that is printed in the local zone and read back is the start of that minute.
pub parse_minute-format_minute :
    (loc : Location) (t : Time)
    → loc.west ≤ t / minute
    → (to_date (wall loc t / 1440)).year < 10000
    → parse_minute loc (format_minute loc t) ≡ ok (t / minute * minute)
unfolding parse_minute format_minute of_wall wall
parse_minute-format_minute loc t west h =
    rw (parse_wall-format_wall _ h) (ap ok (ap (λ n. n * minute) (omega arith)))

pad2-Lacks : (n : ℕ) → Lacks b'_' (pad2 n)
unfolding pad2
pad2-Lacks n = ground (arith, format_nat-Lacks n)

pad4-Lacks : (n : ℕ) → Lacks b'_' (pad4 n)
unfolding pad4
pad4-Lacks n = ground (arith, format_nat-Lacks n)

after :
    (xs ys : Bytes) (c : ℕ) → c ≢ b'_' → Lacks b'_' xs → Lacks b'_' ys → Lacks b'_' (xs ++ (c ∷ ys))
after xs ys c h hx hy = All-append (λ c. c ≢ b'_') xs (c ∷ ys) hx (h, hy)

pub format_minute-Lacks : (loc : Location) (t : Time) → Lacks b'_' (format_minute loc t)
unfolding format_minute format_wall
format_minute-Lacks loc t = after _ _ b'-' (omega arith) (pad4-Lacks _) (
    after _ _ b'-' (omega arith) (pad2-Lacks _) (
      after _ _ b' ' (omega arith) (pad2-Lacks _)
        (after _ _ b':' (omega arith) (pad2-Lacks _) (pad2-Lacks _))))
