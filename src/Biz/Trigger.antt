-- ===== src/Biz/Trigger.antt =====
-- The trigger, which reads the tasks of a slice and hands them to the executor: handleBatch and
-- getTasksByTime of internal/biz/trigger.go. The pool of workers is a parameter.
pub mod Run
pub mod Fallback
pub mod Batch
pub mod Undisturbed
use codewave_timer.Base.{
  ℕ, Bool, true, false, List, [], ◌∷◌, Bytes, ◌⊎◌, inl, inr, ℤ, to_uint64, if◌then◌else◌, Result,
  ok, err, Error,
}
use codewave_timer.GoLib.Clock.{Time, unix_milli}
use codewave_timer.Exec.{Exec, pure, lift, attempt, ◌>>=◌}
use codewave_timer.Config.{Config}
use codewave_timer.Keys.{get_bucket, union_timer_id_unix}
use codewave_timer.Biz.Trigger.Fallback.{valid_tasks}
use codewave_timer.Model.{TaskTimer, to_int, not_runned}
use codewave_timer.Biz.Ports.{Context, TaskCache, TimerTaskRepo}

-- `submit key` is pool.Submit of a function that runs Work of the executor for `key`.
module _ {W : Type 0} (conf : Config) (tasks : TimerTaskRepo W) (cache : TaskCache W)
    (submit : Bytes → Exec W (Unit {0})) where
  unfoldable pub from_database :
      Context → ℤ → Time → Time → List TaskTimer ⊎ Error → Exec W (List TaskTimer)
  from_database ctx bucket start end (inl found) = pure found
  from_database ctx bucket start end (inr e) =
      tasks.get_tasks_by_time_range ctx (unix_milli start) (unix_milli end) (to_int not_runned)
      >>= λ rows. lift (valid_tasks conf.scheduler.buckets_num bucket rows)

  unfoldable pub get_tasks_by_time : Context → Bytes → ℤ → Time → Time → Exec W (List TaskTimer)
  unfolding from_database
  get_tasks_by_time ctx key bucket start end =
      attempt (cache.get_tasks_by_time ctx key (unix_milli start) (unix_milli end))
      >>= from_database ctx bucket start end

  -- The loop of handleBatch: the first error of the pool ends it.
  unfoldable pub submit_all : List TaskTimer → Exec W (Unit {0})
  submit_all [] = pure tt
  submit_all (task ∷ tasks) =
      submit (union_timer_id_unix (to_uint64 task.timer_id) task.run_timer) >>= λ u.
      submit_all tasks

  unfoldable pub handle_batch : Context → Bytes → Time → Time → Exec W (Unit {0})
  unfolding get_tasks_by_time submit_all
  handle_batch ctx key start end =
      lift (get_bucket key) >>= λ bucket. get_tasks_by_time ctx key bucket start end >>= submit_all
