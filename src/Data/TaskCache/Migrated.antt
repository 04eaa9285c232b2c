-- ===== src/Data/TaskCache/Migrated.antt =====
-- The tasks that internal/biz/migrator.go makes of the times of a timer, for the cache of
-- internal/data/task_cache_redis.go.
use codewave_timer.Base.{
  ℕ, ◌+◌, ◌*◌, ◌/◌, ◌%◌, ◌^◌, ◌≤◌, ◌<◌, ◌≡◌, refl, ap, ◌∙◌, arith, inl, inr, List, [], ◌∷◌, Has,
  All, ok, neg_part, IsInt64, rem_ℤ,
}
use codewave_timer.GoLib.Clock.{epoch, Time, Location, hour, millisecond, unix_milli, of_unix_milli}
use codewave_timer.Cron.{CronLibrary}
use codewave_timer.Cron.Nexts.{Occurs, Chain}
use codewave_timer.Keys.{get_table_name, get_slice_msg_key}
use codewave_timer.Keys.Buckets.{get_table_name-slice}
use codewave_timer.Model.{JobTimer}
use codewave_timer.Biz.Migrator.{task_at, batch_tasks_from_timer}
use codewave_timer.Data.TaskCache.Members.{IsFresh}

pub of_unix_milli-unix_milli :
    (u : Time) → of_unix_milli (unix_milli u) ≡ u / millisecond * millisecond
unfolding of_unix_milli unix_milli
of_unix_milli-unix_milli u = ground arith

pub unix_milli-IsInt64 : (u : Time) → u < 2 ^ 63 * millisecond → IsInt64 (unix_milli u)
unfolding unix_milli
unix_milli-IsInt64 u small = ground arith

pub Has-task :
    (timer : JobTimer) (u : Time) (ts : List Time)
    → Occurs u ts
    → Has (task_at timer u) (batch_tasks_from_timer timer ts)
unfolding batch_tasks_from_timer
Has-task timer u [] o = elim o [ ]
Has-task timer u (t ∷ ts) (inl e) = inl (ap (task_at timer) e)
Has-task timer u (t ∷ ts) (inr o) = inr (Has-task timer u ts o)

-- The task of a time is kept until a day after that time.
pub task_at-IsFresh :
    (timer : JobTimer) (T u : Time)
    → IsInt64 timer.timer_id
    → neg_part timer.timer_id ≡ 0
    → u < 2 ^ 63 * millisecond
    → T + millisecond ≤ u + 24 * hour
    → IsFresh T (task_at timer u)
unfolding task_at
task_at-IsFresh timer T u fits nonneg small soon = record {
  run = unix_milli-IsInt64 u small;
  timer = fits;
  nonneg = nonneg;
  alive = omega (arith, of_unix_milli-unix_milli u);
}

pub tasks-IsFresh :
    (timer : JobTimer) (T : Time) (ts : List Time)
    → IsInt64 timer.timer_id
    → neg_part timer.timer_id ≡ 0
    → ((u : Time) → Occurs u ts → (u < 2 ^ 63 * millisecond) × (T + millisecond ≤ u + 24 * hour))
    → All (IsFresh T) (batch_tasks_from_timer timer ts)
unfolding batch_tasks_from_timer
tasks-IsFresh timer T [] fits nonneg h = tt
tasks-IsFresh timer T (t ∷ ts) fits nonneg h = (
  task_at-IsFresh timer T t fits nonneg (h t (inl refl)).0 (h t (inl refl)).1,
  tasks-IsFresh timer T ts fits nonneg (λ u o. h u (inr o)),
)

-- The documented years of a cron expression are 1970 to 2099; this is after them in every zone.
abbrev pub year_2100 : Time
year_2100 = epoch + 47483 * (24 * hour)

module _ (c : CronLibrary) (dated : (e : c.Expr) (t : Time) → c.next e t < year_2100) where
  pub Chain-dated :
      (expr : c.Expr) (start end u : Time) (ts : List Time)
      → Chain c expr start end ts
      → Occurs u ts
      → u < year_2100
  Chain-dated expr start end u [] h o = elim o [ ]
  Chain-dated expr start end u (t ∷ ts) h (inl e) = omega (arith, dated expr start, e, h.1)
  Chain-dated expr start end u (t ∷ ts) h (inr o) = Chain-dated expr t end u ts h.3 o

-- The table of a task at a time in whole milliseconds is the slice of that time.
pub task_at-table :
    (loc : Location) (n : ℕ) (timer : JobTimer) (u : Time)
    → 0 < n
    → u % millisecond ≡ 0
    → get_table_name loc n (task_at timer u) ≡ ok (get_slice_msg_key loc u (rem_ℤ timer.timer_id n))
unfolding task_at get_slice_msg_key
task_at-table loc n timer u pos_n whole =
    get_table_name-slice loc n (task_at timer u) pos_n
    ∙ ap (λ (t : Time). ok (get_slice_msg_key loc t (rem_ℤ timer.timer_id n)))
        (of_unix_milli-unix_milli u ∙ omega arith)
