-- ===== src/Keys.antt =====
-- The keys of redis and the messages between scheduler, trigger and executor:
-- internal/utils/timer.go, internal/utils/time.go, and the key functions of internal/biz/trigger.go
-- and internal/data/task_cache_redis.go.
pub mod TaskKey
pub mod SliceKey
pub mod Buckets
use codewave_timer.Base.{
  ℕ, ◌%◌, ◌/◌, ◌≡◌, refl, Bool, true, false, List, [], ◌∷◌, ◌++◌, Option, none, some, Bytes, codes,
  ◌==◌, if◌then◌else◌, ℤ, pos, negsuc, to_uint64, rem_ℤ, Error, invalid_key, Result, ok, err, panic,
  ◌>>=◌, checked,
}
use codewave_timer.GoLib.Decimal.{format_nat, format_int, parse_int}
use codewave_timer.GoLib.Split.{split}
use codewave_timer.GoLib.Clock.{
  Time, Location, minute, wall, at_clock, format_day, format_hour, format_minute, parse_minute,
  of_unix_milli,
}
use codewave_timer.Model.{TaskTimer}

abbrev pub underscore : ℕ
underscore = b'_'

-- fmt.Sprintf("%d_%d", timeID, unix)
unfoldable pub union_timer_id_unix : ℕ → ℤ → Bytes
union_timer_id_unix time_id unix = format_nat time_id ++ (underscore ∷ format_int unix)

-- The errors of ParseInt are dropped, its values are kept.
id_and_unix : List Bytes → ℤ × ℤ × Option Error
id_and_unix (id ∷ unix ∷ []) = ((parse_int id).0, (parse_int unix).0, none)
id_and_unix parts = (pos 0, pos 0, some invalid_key)

unfoldable pub split_timer_id_unix : Bytes → ℤ × ℤ × Option Error
unfolding id_and_unix
split_timer_id_unix str = id_and_unix (split str underscore)

unfoldable get_task_bloom_filter_key : Bytes → Bytes
get_task_bloom_filter_key time_str = codes "task_bloom_" ++ time_str

unfoldable get_bucket_cnt_key : Bytes → Bytes
get_bucket_cnt_key key = codes "bucket_cnt_" ++ key

-- fmt.Sprintf("%s_%d", t.Format(constant.MinuteFormat), bucketID)
unfoldable pub get_slice_msg_key : Location → Time → ℤ → Bytes
get_slice_msg_key loc t bucket_id = format_minute loc t ++ (underscore ∷ format_int bucket_id)

unfoldable pub get_time_bucket_lock_key : Location → Time → ℤ → Bytes
get_time_bucket_lock_key loc t bucket_id =
    codes "time_bucket_lock_" ++ (format_minute loc t ++ (underscore ∷ format_int bucket_id))

unfoldable get_migrator_lock_key : Location → Time → Bytes
get_migrator_lock_key loc t = codes "migrator_lock_" ++ format_hour loc t

unfoldable get_monitor_lock_key : Location → Time → Bytes
get_monitor_lock_key loc t = codes "monitor_lock_" ++ format_minute loc t

unfoldable pub get_enable_lock_key : Bytes → Bytes
get_enable_lock_key app = codes "enable_timer_lock_" ++ app

unfoldable get_create_lock_key : Bytes → Bytes
get_create_lock_key app = codes "create_timer_lock_" ++ app

-- utils.GetStartMinute
pub parse_start_minute : Location → Bytes → Result Time
parse_start_minute loc time_str = parse_minute loc time_str

unfoldable get_day_str : Location → Time → Bytes
get_day_str loc t = format_day loc t

unfoldable get_hour_str : Location → Time → Bytes
get_hour_str loc t = format_hour loc t

unfoldable get_minute_str : Location → Time → Bytes
get_minute_str loc t = format_minute loc t

unfoldable get_start_hour : Location → Time → Time
get_start_hour loc t = at_clock loc t (wall loc t % 1440 / 60) 0

unfoldable get_minute : Location → Time → Time
get_minute loc t = at_clock loc t (wall loc t % 1440 / 60) (wall loc t % 60)

-- getStartMinute of trigger.go
start_minute_of : Location → List Bytes → Result Time
unfolding parse_start_minute
start_minute_of loc (time ∷ bucket ∷ []) = parse_start_minute loc time
start_minute_of loc parts = err invalid_key

unfoldable pub get_start_minute : Location → Bytes → Result Time
unfolding start_minute_of
get_start_minute loc slice = start_minute_of loc (split slice underscore)

bucket_of : List Bytes → Result ℤ
bucket_of (time ∷ bucket ∷ []) = checked (parse_int bucket)
bucket_of parts = err invalid_key

unfoldable pub get_bucket : Bytes → Result ℤ
unfolding bucket_of
get_bucket slice = bucket_of (split slice underscore)

time_and_bucket : Location → List Bytes → Result (Time × ℤ)
time_and_bucket loc (time ∷ bucket ∷ []) =
    parse_minute loc time >>= λ t. checked (parse_int bucket) >>= λ b. ok (t, b)
time_and_bucket loc parts = err invalid_key

unfoldable pub split_time_bucket : Location → Bytes → Result (Time × ℤ)
unfolding time_and_bucket
split_time_bucket loc key = time_and_bucket loc (split key underscore)

-- `task.TimerID % int64(maxBucket)`, which panics for no buckets
unfoldable pub table_bucket : ℕ → ℤ → Result ℤ
table_bucket max_bucket timer_id = if max_bucket == 0 then panic else ok (rem_ℤ timer_id max_bucket)

unfoldable pub get_table_name : Location → ℕ → TaskTimer → Result Bytes
unfolding table_bucket
get_table_name loc max_bucket task = table_bucket max_bucket task.timer_id >>= λ b.
    ok (format_minute loc (of_unix_milli task.run_timer) ++ (underscore ∷ format_int b))

-- The test of getTasksByTime in trigger.go that keeps a task of the database.
unfoldable pub in_bucket : ℕ → ℤ → TaskTimer → Result Bool
in_bucket max_bucket bucket task =
    if max_bucket == 0 then panic else ok (to_uint64 task.timer_id % max_bucket == to_uint64 bucket)
