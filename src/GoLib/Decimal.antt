-- ===== src/GoLib/Decimal.antt =====
-- `%d` and strconv.FormatInt in base ten; strconv.ParseInt(s, 10, 64) and strconv.Atoi.
pub mod RoundTrip
use codewave_timer.Base.{
  ℕ, zero, suc, ◌+◌, ◌-◌, ◌*◌, ◌/◌, ◌%◌, ◌^◌, ◌≡◌, refl, Bool, true, false, ◌||◌, List, [], ◌∷◌,
  Option, none, some, Bytes, codes, ltb, ◌==◌, if◌then◌else◌, ℤ, pos, negsuc, Error, bad_number,
  out_of_range,
}

-- Puts the digits of `n` in front of `out`; the first argument is fuel.
digits : ℕ → ℕ → Bytes → Bytes
digits zero n out = out
digits (suc f) n out =
    let rest = digits f (n / 10) ((b'0' + n % 10) ∷ out) in if n == 0 then out else rest

unfoldable pub format_nat : ℕ → Bytes
unfolding digits
format_nat zero = b'0' ∷ []
format_nat (suc n) = digits (suc (suc n)) (suc n) []

unfoldable pub format_int : ℤ → Bytes
format_int (pos n) = format_nat n
format_int (negsuc n) = b'-' ∷ format_nat (suc n)

-- The outcome of strconv.ParseUint over the digits: out of range is found before a later bad byte.
pub data Scan : Type 0 where
  value : ℕ → Scan
  syntax range : Scan

scan : Bytes → ℕ → Scan
scan [] n = value n
scan (c ∷ s) n =
    let d = c - b'0' in
    let rest = scan s (n * 10 + d) in
    if ltb c b'0' || ltb b'9' c
    then syntax
    else if ltb (2 ^ 64 - 1) (n * 10 + d)
    then range
    else rest

unsigned : Bytes → Scan
unfolding scan
unsigned [] = syntax
unsigned (c ∷ s) = scan (c ∷ s) 0

abbrev pub max_int64 : ℤ
max_int64 = pos (2 ^ 63 - 1)

abbrev pub min_int64 : ℤ
min_int64 = negsuc (2 ^ 63 - 1)

-- A Go result of two values: on an error the value is still there.
positive : Scan → ℤ × Option Error
positive syntax = (pos 0, some bad_number)
positive range = (max_int64, some out_of_range)
positive (value n) = if ltb n (2 ^ 63) then (pos n, none) else (max_int64, some out_of_range)

negative : Scan → ℤ × Option Error
negative syntax = (pos 0, some bad_number)
negative range = (min_int64, some out_of_range)
negative (value zero) = (pos 0, none)
negative (value (suc n)) =
    if ltb n (2 ^ 63) then (negsuc n, none) else (min_int64, some out_of_range)

signed : ℕ → Bytes → ℤ × Option Error
signed c s =
    if c == b'-'
    then negative (unsigned s)
    else if c == b'+'
    then positive (unsigned s)
    else positive (unsigned (c ∷ s))

unfoldable pub parse_int : Bytes → ℤ × Option Error
unfolding signed positive negative unsigned
parse_int [] = (pos 0, some bad_number)
parse_int (c ∷ s) = signed c s

parse_int_runs :
    (parse_int (codes "-42") ≡ (negsuc 41, none))
    × (parse_int (codes "9223372036854775808") ≡ (max_int64, some out_of_range))
    × (parse_int (codes "1x") ≡ (pos 0, some bad_number))
unfolding parse_int
parse_int_runs = (refl, refl, refl)

format_int_runs : format_int (negsuc 1233) ≡ codes "-1234"
unfolding format_int format_nat
format_int_runs = refl
