-- ===== src/Keys/Buckets.antt =====
-- Which slice a task belongs to: by the redis table that the migrator writes it to, and by the test
-- that the trigger makes when it reads the database instead.
use codewave_timer.Base.{
  ℕ, ◌%◌, ◌/◌, ◌<◌, ◌^◌, ◌≡◌, ◌↔◌, ap, ◌∙◌, arith, Bool, true, ◌==◌, ℤ, pos, negsuc, IsInt64, rem_ℤ,
  to_uint64, ok, neg_part,
}
use native.Mathlib.Nat.{mod-lt}
use codewave_timer.GoLib.Clock.{Time, Location, minute, of_unix_milli}
use codewave_timer.Model.{TaskTimer}
use codewave_timer.Keys.{get_slice_msg_key, table_bucket, get_table_name, in_bucket}
use codewave_timer.Keys.SliceKey.{HasFourDigitYear, get_slice_msg_key_inj}

-- The table of a task is the slice of its minute and of its number's remainder.
pub get_table_name-slice :
    (loc : Location) (n : ℕ) (task : TaskTimer)
    → 0 < n
    → get_table_name loc n task
      ≡ ok (get_slice_msg_key loc (of_unix_milli task.run_timer) (rem_ℤ task.timer_id n))
unfolding get_table_name get_slice_msg_key table_bucket
get_table_name-slice loc n task h = ground arith

rem_ℤ-IsInt64 : (a : ℤ) (n : ℕ) → 0 < n → n < 2 ^ 63 → IsInt64 (rem_ℤ a n)
unfolding rem_ℤ
rem_ℤ-IsInt64 a n pos_n small = ground arith

module _ (loc : Location) (n : ℕ) (task : TaskTimer) (t : Time) (b : ℤ) where
  abbrev run_time : Time
  run_time = of_unix_milli task.run_timer

  -- The slice key that the scheduler makes for time `t` and bucket `b` is the table of a task
  -- exactly when the task runs in the minute of `t` and `b` is the remainder of its timer's number, in
  -- years from 0 to 9999 and for int64 buckets.
  pub get_table_name_iff :
      0 < n
      → n < 2 ^ 63
      → HasFourDigitYear loc run_time
      → HasFourDigitYear loc t
      → IsInt64 b
      → (get_table_name loc n task ≡ ok (get_slice_msg_key loc t b))
        ↔ ((run_time / minute ≡ t / minute) × (rem_ℤ task.timer_id n ≡ b))
  get_table_name_iff pos_n small hr ht hb =
      (λ e. iff.0 (table e), λ e. get_table_name-slice loc n task pos_n ∙ ap ok (iff.1 e))
    where
      iff :
          (get_slice_msg_key loc run_time (rem_ℤ task.timer_id n) ≡ get_slice_msg_key loc t b)
          ↔ ((run_time / minute ≡ t / minute) × (rem_ℤ task.timer_id n ≡ b))
      iff =
          get_slice_msg_key_inj loc run_time t (rem_ℤ task.timer_id n) b hr ht
            (rem_ℤ-IsInt64 task.timer_id n pos_n small) hb

      table :
          get_table_name loc n task ≡ ok (get_slice_msg_key loc t b)
          → get_slice_msg_key loc run_time (rem_ℤ task.timer_id n) ≡ get_slice_msg_key loc t b
      table e = cc (get_table_name-slice loc n task pos_n)

bucket_iff :
    (n : ℕ) (a b : ℤ)
    → 0 < n
    → n < 2 ^ 63
    → IsInt64 a
    → neg_part a ≡ 0
    → IsInt64 b
    → ((to_uint64 a % n == to_uint64 b) ≡ true) ↔ (rem_ℤ a n ≡ b)
unfolding to_uint64 rem_ℤ
bucket_iff n (negsuc a) b pos_n small fits nonneg hb = absurd (omega arith)
bucket_iff n (pos a) (negsuc b) pos_n small fits nonneg hb =
    (λ e. absurd (ground (arith, mod-lt (a % 2 ^ 64) pos_n)), λ e. cc)
bucket_iff n (pos a) (pos b) pos_n small fits nonneg hb =
    let ea : a % 2 ^ 64 ≡ a = omega arith in
    let eb : b % 2 ^ 64 ≡ b = omega arith in rw (ea, eb) (ground arith)

-- For a timer whose number is not negative, the test on rows of the database keeps a task for
-- exactly the bucket of its redis table.
pub in_bucket_iff :
    (n : ℕ) (task : TaskTimer) (b : ℤ)
    → 0 < n
    → n < 2 ^ 63
    → IsInt64 task.timer_id
    → neg_part task.timer_id ≡ 0
    → IsInt64 b
    → (in_bucket n b task ≡ ok true) ↔ (table_bucket n task.timer_id ≡ ok b)
unfolding in_bucket table_bucket
in_bucket_iff n task b pos_n small fits nonneg hb =
    ground (arith, bucket_iff n task.timer_id b pos_n small fits nonneg hb)

-- The test answers for any row, if there are buckets.
pub in_bucket-total :
    (n : ℕ) (b : ℤ) (task : TaskTimer) → 0 < n → (mine : Bool) × (in_bucket n b task ≡ ok mine)
unfolding in_bucket
in_bucket-total n b task h = (to_uint64 task.timer_id % n == to_uint64 b, ground arith)
