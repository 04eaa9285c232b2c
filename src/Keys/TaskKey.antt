-- ===== src/Keys/TaskKey.antt =====
-- The member of a task in redis, `<timer id>_<unix>`, is read back by the executor.
use codewave_timer.Base.{
  ℕ, ◌^◌, ◌-◌, ◌%◌, ◌<◌, ◌≡◌, none, ℤ, pos, negsuc, IsInt64, to_uint64, arith,
}
use codewave_timer.GoLib.Decimal.{format_nat, format_int, parse_int, max_int64}
use codewave_timer.GoLib.Decimal.RoundTrip.{
  parse_int-format_int, parse_int-format_nat, format_nat-Lacks, format_int-Lacks,
  parse_int-format_nat_big,
}
use codewave_timer.GoLib.Split.{split-append, split_whole}
use codewave_timer.Keys.{underscore, union_timer_id_unix, split_timer_id_unix}

split-union :
    (n : ℕ) (unix : ℤ)
    → split_timer_id_unix (union_timer_id_unix n unix)
      ≡ ((parse_int (format_nat n)).0, (parse_int (format_int unix)).0, none)
unfolding split_timer_id_unix union_timer_id_unix
split-union n unix = rw (
  split-append (format_nat n) (format_int unix) underscore (format_nat-Lacks n),
  split_whole (format_int unix) underscore (format_int-Lacks unix),
)

-- A timer's number that is not negative, and any int64 time, come back from the key, with no error.
pub split_timer_id_unix-union_timer_id_unix :
    (n : ℕ) (unix : ℤ)
    → n < 2 ^ 63
    → IsInt64 unix
    → split_timer_id_unix (union_timer_id_unix (to_uint64 (pos n)) unix) ≡ (pos n, unix, none)
unfolding to_uint64
split_timer_id_unix-union_timer_id_unix n unix small fits =
    rw
      (split-union, parse_int-format_int unix fits, parse_int-format_nat (n % 2 ^ 64) (omega arith))
      (ground arith)

-- A negative timer number is printed as a uint beyond int64, and every such key is read back as
-- the greatest int64, with no error.
pub split_timer_id_unix_negative :
    (n : ℕ) (unix : ℤ)
    → n < 2 ^ 63
    → IsInt64 unix
    → split_timer_id_unix (union_timer_id_unix (to_uint64 (negsuc n)) unix)
      ≡ (max_int64, unix, none)
unfolding to_uint64
split_timer_id_unix_negative n unix small fits = rw (
  split-union,
  parse_int-format_int unix fits,
  parse_int-format_nat_big ((2 ^ 64 - 1) - n % 2 ^ 64) (omega arith) (omega arith),
)
