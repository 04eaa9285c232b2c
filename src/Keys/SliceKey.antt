-- ===== src/Keys/SliceKey.antt =====
-- A slice key `<minute>_<bucket>` names one minute of the local clock and one bucket.
use codewave_timer.Base.{◌*◌, ◌/◌, ◌<◌, ◌≤◌, ◌≡◌, ap, arith, [], ◌∷◌, ◌↔◌, ℤ, IsInt64, ok, checked}
use codewave_timer.GoLib.Calendar.{to_date}
use codewave_timer.GoLib.Decimal.{format_int}
use codewave_timer.GoLib.Decimal.RoundTrip.{parse_int-format_int, format_int-Lacks}
use codewave_timer.GoLib.Split.{split, split-append, split_whole}
use codewave_timer.GoLib.Clock.{Time, Location, minute, wall, format_minute}
use codewave_timer.GoLib.Clock.RoundTrip.{parse_minute-format_minute, format_minute-Lacks}
use codewave_timer.Keys.{
  underscore, get_slice_msg_key, get_start_minute, get_bucket, split_time_bucket,
}

-- The local clock shows a year from 0 to 9999.
pub record HasFourDigitYear (loc : Location) (t : Time) : Type 0 where
  pub after_zero : loc.west ≤ t / minute
  pub before_10000 : (to_date (wall loc t / 1440)).year < 10000

module _ (loc : Location) (t : Time) (b : ℤ) where
  split-get_slice_msg_key :
      split (get_slice_msg_key loc t b) underscore ≡ format_minute loc t ∷ format_int b ∷ []
  unfolding get_slice_msg_key
  split-get_slice_msg_key = rw (
    split-append (format_minute loc t) (format_int b) underscore (format_minute-Lacks loc t),
    split_whole (format_int b) underscore (format_int-Lacks b),
  )

  -- In a year from 0 to 9999, the trigger starts at the beginning of the minute for which the
  -- scheduler made the slice key.
  pub get_start_minute-get_slice_msg_key :
      HasFourDigitYear loc t
      → get_start_minute loc (get_slice_msg_key loc t b) ≡ ok (t / minute * minute)
  unfolding get_start_minute
  get_start_minute-get_slice_msg_key h =
      rw split-get_slice_msg_key (parse_minute-format_minute loc t h.after_zero h.before_10000)

  -- The trigger works on the bucket for which the scheduler made the slice key, if it is an int64.
  pub get_bucket-get_slice_msg_key : IsInt64 b → get_bucket (get_slice_msg_key loc t b) ≡ ok b
  unfolding get_bucket
  get_bucket-get_slice_msg_key h =
      rw split-get_slice_msg_key (ap checked (parse_int-format_int b h))

  -- SplitTimeBucket reads the beginning of the minute and the bucket back from a slice key, in a year
  -- from 0 to 9999 and for an int64 bucket.
  pub split_time_bucket-get_slice_msg_key :
      HasFourDigitYear loc t
      → IsInt64 b
      → split_time_bucket loc (get_slice_msg_key loc t b) ≡ ok (t / minute * minute, b)
  unfolding split_time_bucket
  split_time_bucket-get_slice_msg_key h fits = rw (
    split-get_slice_msg_key,
    parse_minute-format_minute loc t h.after_zero h.before_10000,
    parse_int-format_int b fits,
  )

same_slice :
    (loc : Location) (t u : Time) (b c : ℤ)
    → t / minute ≡ u / minute
    → b ≡ c
    → get_slice_msg_key loc t b ≡ get_slice_msg_key loc u c
unfolding get_slice_msg_key format_minute wall
same_slice loc t u b c p q = rw (p, q)

-- Two slice keys, in years from 0 to 9999 and for int64 buckets, are the same text exactly when minute
-- and bucket are the same.
pub get_slice_msg_key_inj :
    (loc : Location) (t u : Time) (b c : ℤ)
    → HasFourDigitYear loc t
    → HasFourDigitYear loc u
    → IsInt64 b
    → IsInt64 c
    → (get_slice_msg_key loc t b ≡ get_slice_msg_key loc u c)
      ↔ ((t / minute ≡ u / minute) × (b ≡ c))
get_slice_msg_key_inj loc t u b c ht hu hb hc = (λ e. (same_minute e, same_bucket e), same_key)
  where
    same_minute : get_slice_msg_key loc t b ≡ get_slice_msg_key loc u c → t / minute ≡ u / minute
    same_minute e = ground (
      arith,
      ap (get_start_minute loc) e,
      get_start_minute-get_slice_msg_key loc t b ht,
      get_start_minute-get_slice_msg_key loc u c hu,
    )

    same_bucket : get_slice_msg_key loc t b ≡ get_slice_msg_key loc u c → b ≡ c
    same_bucket e = cc (
      ap get_bucket e,
      get_bucket-get_slice_msg_key loc t b hb,
      get_bucket-get_slice_msg_key loc u c hc,
    )

    same_key :
        (t / minute ≡ u / minute) × (b ≡ c) → get_slice_msg_key loc t b ≡ get_slice_msg_key loc u c
    same_key e = same_slice loc t u b c e.0 e.1
