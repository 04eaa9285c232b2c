-- ===== src/GoLib/Clock.antt =====
-- time.Time, and its layout "2006-01-02 15:04" for Format and ParseInLocation.
-- A time is the nanoseconds since the first day of the year 0, UTC; the local zone is a fixed offset.
pub mod RoundTrip
use codewave_timer.Base.{
  ℕ, zero, suc, ◌+◌, ◌-◌, ◌*◌, ◌/◌, ◌%◌, ◌^◌, ◌≤◌, ◌≡◌, refl, Bool, true, false, ◌&&◌, ◌||◌, List,
  [], ◌∷◌, ◌++◌, Bytes, codes, ltb, leb, ◌==◌, if◌then◌else◌, ℤ, pos, negsuc, sub_ℕ, pos_part,
  neg_part, Result, ok, err, ◌>>=◌, bad_time,
}
use codewave_timer.GoLib.Decimal.{format_nat}
use codewave_timer.GoLib.Calendar.{
  Date, to_date, from_date, days_in, year_split, month_split, month_lengths, year_length,
  days_before_year, days_before_month, month_length,
}

abbrev pub Time : Type 0
Time = ℕ

abbrev pub Duration : Type 0
Duration = ℕ

abbrev pub millisecond : Duration
millisecond = 1000000

abbrev pub second : Duration
second = 1000000000

abbrev pub minute : Duration
minute = 60 * second

abbrev pub hour : Duration
hour = 60 * minute

-- 1 January 1970.
abbrev pub epoch : Time
epoch = 719528 * (24 * hour)

-- Minutes east and west of UTC; one of them is 0.
pub record Location : Type 0 where
  pub east : ℕ
  pub west : ℕ

unfoldable pub unix_milli : Time → ℤ
unix_milli t = sub_ℕ (t / millisecond) (epoch / millisecond)

-- time.UnixMilli(ms), for times from the year 0 on.
unfoldable pub of_unix_milli : ℤ → Time
of_unix_milli ms = (epoch / millisecond + pos_part ms - neg_part ms) * millisecond

-- `t.UnixNano() < 0`, where UnixNano is an int64 that wraps around.
unfoldable pub unix_nano_negative : Time → Bool
unix_nano_negative t = leb (2 ^ 63) ((t + 4 * 2 ^ 64 - epoch) % 2 ^ 64)

-- time.Time{}, 1 January of the year 1.
abbrev pub zero_time : Time
zero_time = 366 * (24 * hour)

-- Minutes on the local clock.
unfoldable pub wall : Location → Time → ℕ
wall loc t = t / minute + loc.east - loc.west

unfoldable pub of_wall : Location → ℕ → Time
of_wall loc m = (m + loc.west - loc.east) * minute

unfoldable pub pad2 : ℕ → Bytes
pad2 n = if ltb n 100 then (b'0' + n / 10) ∷ (b'0' + n % 10) ∷ [] else format_nat n

unfoldable pub pad4 : ℕ → Bytes
pad4 n =
    if ltb n 10000
    then (b'0' + n / 1000) ∷ (b'0' + n / 100 % 10) ∷ (b'0' + n / 10 % 10) ∷ (b'0' + n % 10) ∷ []
    else format_nat n

unfoldable pub format_wall : ℕ → Bytes
format_wall m =
    let t = to_date (m / 1440) in
    pad4 t.year
    ++ (b'-'
        ∷ (pad2 t.month
            ++ (b'-' ∷ (pad2 t.day ++ (b' ' ∷ (pad2 (m % 1440 / 60) ++ (b':' ∷ pad2 (m % 60))))))))

-- t.Format("2006-01-02 15:04")
unfoldable pub format_minute : Location → Time → Bytes
format_minute loc t = format_wall (wall loc t)

-- t.Format("2006-01-02")
unfoldable pub format_day : Location → Time → Bytes
format_day loc t =
    let d = to_date (wall loc t / 1440) in
    pad4 d.year ++ (b'-' ∷ (pad2 d.month ++ (b'-' ∷ pad2 d.day)))

-- t.Format("2006-01-02 15")
unfoldable pub format_hour : Location → Time → Bytes
format_hour loc t = format_day loc t ++ (b' ' ∷ pad2 (wall loc t % 1440 / 60))

-- time.Date(t.Year(), t.Month(), t.Day(), hour, min, 0, 0, loc)
unfoldable pub at_clock : Location → Time → ℕ → ℕ → Time
at_clock loc t h mi = of_wall loc (from_date (to_date (wall loc t / 1440)) * 1440 + h * 60 + mi)

unfoldable pub is_digit : ℕ → Bool
is_digit c = leb b'0' c && leb c b'9'

-- One digit, read by `getnum` when a second one is not required.
short : Bool → ℕ → Bytes → Result (ℕ × Bytes)
short fixed c s = if fixed then err bad_time else ok (c - b'0', s)

-- `getnum` of Go's time package: two digits, or one where two are not required.
unfoldable pub get_num : Bool → Bytes → Result (ℕ × Bytes)
unfolding is_digit short
get_num fixed [] = err bad_time
get_num fixed (c ∷ []) = if is_digit c then short fixed c [] else err bad_time
get_num fixed (c ∷ d ∷ s) =
    if is_digit c
    then if is_digit d then ok ((c - b'0') * 10 + (d - b'0'), s) else short fixed c (d ∷ s)
    else err bad_time

unfoldable pub get_year : Bytes → Result (ℕ × Bytes)
unfolding is_digit
get_year (a ∷ b ∷ c ∷ d ∷ s) =
    if is_digit a && (is_digit b && (is_digit c && is_digit d))
    then ok ((a - b'0') * 1000 + (b - b'0') * 100 + (c - b'0') * 10 + (d - b'0'), s)
    else err bad_time
get_year s = err bad_time

unfoldable pub literal : ℕ → Bytes → Result Bytes
literal c [] = err bad_time
literal c (d ∷ s) = if d == c then ok s else err bad_time

cut_space : Bytes → Bytes
cut_space [] = []
cut_space (c ∷ s) = let rest = cut_space s in if c == b' ' then rest else c ∷ s

-- A space of the layout stands for a run of them, or for the end of the text.
unfoldable pub space : Bytes → Result Bytes
unfolding cut_space
space [] = ok []
space (c ∷ s) = if c == b' ' then ok (cut_space s) else err bad_time

unfoldable pub valid : ℕ → ℕ → ℕ → ℕ → ℕ → Bool
valid y mo d h mi =
    leb 1 mo && (leb mo 12 && (leb 1 d && (leb d (days_in y mo) && (ltb h 24 && ltb mi 60))))

finish : ℕ → ℕ → ℕ → ℕ → ℕ → Bytes → Result ℕ
finish y mo d h mi [] =
    if valid y mo d h mi
    then ok (from_date (record { year = y; month = mo; day = d }) * 1440 + h * 60 + mi)
    else err bad_time
finish y mo d h mi (c ∷ s) = err bad_time

unfoldable pub parse_wall : Bytes → Result ℕ
unfolding finish
parse_wall s = get_year s >>= λ (y, s). literal b'-' s >>= λ s. get_num true s >>= λ (mo, s).
    literal b'-' s >>= λ s. get_num true s >>= λ (d, s). space s >>= λ s.
    get_num false s >>= λ (h, s).
    literal b':' s >>= λ s. get_num true s >>= λ (mi, s). finish y mo d h mi s

-- time.ParseInLocation("2006-01-02 15:04", s, loc)
unfoldable pub parse_minute : Location → Bytes → Result Time
parse_minute loc s = parse_wall s >>= λ m. ok (of_wall loc m)
