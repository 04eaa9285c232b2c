-- ===== src/Tests/Keys.antt =====
-- Keys of a deployment in UTC+8 with five buckets.
use codewave_timer.Base.{
  ◌+◌, ◌*◌, ◌/◌, ◌≡◌, ◌↔◌, refl, none, arith, codes, pos, negsuc, rem_ℤ, to_uint64, ok, true,
}
use codewave_timer.GoLib.Decimal.{max_int64}
use codewave_timer.GoLib.Calendar.{to_date, year_split, month_split, month_lengths, year_length}
use codewave_timer.GoLib.Clock.{
  Time, Location, second, minute, epoch, wall, of_unix_milli, format_minute, format_wall, pad2,
  pad4,
}
use codewave_timer.Model.{TaskTimer, to_int, not_runned}
use codewave_timer.Keys.{
  union_timer_id_unix, split_timer_id_unix, get_slice_msg_key, table_bucket, get_table_name,
  in_bucket,
}
use codewave_timer.Keys.TaskKey.{
  split_timer_id_unix-union_timer_id_unix, split_timer_id_unix_negative,
}
use codewave_timer.Keys.SliceKey.{HasFourDigitYear, get_slice_msg_key_inj}
use codewave_timer.Keys.Buckets.{get_table_name_iff, in_bucket_iff}

abbrev shanghai : Location
shanghai = record { east = 480; west = 0 }

-- 14 November 2023, 22:13:20.5 UTC
abbrev t0 : Time
t0 = epoch + 1700000000 * second + 500000000

abbrev task : TaskTimer
task = record {
  task_id = pos 1;
  app = codes "shop";
  timer_id = pos 7;
  output = codes "";
  run_timer = pos 1700000012000;
  cost_time = pos 0;
  diff_time = pos 0;
  status = to_int not_runned;
}

t0_prints : format_minute shanghai t0 ≡ codes "2023-11-15 06:13"
unfolding format_minute format_wall wall pad2 pad4 to_date year_split month_split month_lengths
    year_length
t0_prints = refl

t0-HasFourDigitYear : HasFourDigitYear shanghai t0
unfolding wall to_date year_split month_split month_lengths year_length
t0-HasFourDigitYear = record { after_zero = omega arith; before_10000 = omega arith }

run-HasFourDigitYear : HasFourDigitYear shanghai (of_unix_milli task.run_timer)
unfolding of_unix_milli wall to_date year_split month_split month_lengths year_length
run-HasFourDigitYear = record { after_zero = omega arith; before_10000 = omega arith }

task_key_example :
    split_timer_id_unix (union_timer_id_unix (to_uint64 (pos 7)) (pos 1700000012000))
    ≡ (pos 7, pos 1700000012000, none)
task_key_example =
    split_timer_id_unix-union_timer_id_unix 7 (pos 1700000012000) (omega arith) (omega arith)

negative_key_example :
    split_timer_id_unix (union_timer_id_unix (to_uint64 (negsuc 2)) (pos 1700000012000))
    ≡ (max_int64, pos 1700000012000, none)
negative_key_example =
    split_timer_id_unix_negative 2 (pos 1700000012000) (omega arith) (omega arith)

slice_keys_example :
    (get_slice_msg_key shanghai t0 (pos 2) ≡ get_slice_msg_key shanghai t0 (pos 3))
    ↔ ((t0 / minute ≡ t0 / minute) × (pos 2 ≡ pos 3))
slice_keys_example =
    get_slice_msg_key_inj shanghai t0 t0 (pos 2) (pos 3) t0-HasFourDigitYear t0-HasFourDigitYear
      (omega arith) (omega arith)

table_example :
    (get_table_name shanghai 5 task ≡ ok (get_slice_msg_key shanghai t0 (pos 2)))
    ↔ ((of_unix_milli task.run_timer / minute ≡ t0 / minute) × (rem_ℤ (pos 7) 5 ≡ pos 2))
table_example =
    get_table_name_iff shanghai 5 task t0 (pos 2) (omega arith) (omega arith) run-HasFourDigitYear
      t0-HasFourDigitYear (omega arith)

in_bucket_example : (in_bucket 5 (pos 2) task ≡ ok true) ↔ (table_bucket 5 (pos 7) ≡ ok (pos 2))
in_bucket_example =
    in_bucket_iff 5 task (pos 2) (omega arith) (omega arith) (omega arith) refl (omega arith)
