-- ===== src/Biz/Executor.antt =====
-- The executor, which calls back for one task and records the outcome: internal/biz/executor.go.
-- The HTTP client with its JSON, and the JSON of the response, are parameters.
pub mod Recorded
use codewave_timer.Base.{
  ℕ, List, [], Bytes, ◌⊎◌, inl, inr, ℤ, pos, ◌-ℤ◌, to_int64, to_uint64, eqb_ℤ, if◌then◌else◌,
  Option, none, some, Result, Error, timer_failed, task_failed,
}
use codewave_timer.GoLib.Clock.{Time, unix_milli}
use codewave_timer.Exec.{Exec, pure, raise, attempt, ◌>>=◌, ◌>>◌}
use codewave_timer.Keys.{split_timer_id_unix}
use codewave_timer.Model.{
  JobTimer, TaskTimer, NotifyHttpParam, to_int, successed, failed, timer_to_int, enabled,
}
use codewave_timer.Biz.Ports.{Context, JobRepo, TimerTaskRepo, Host}

-- json.Unmarshal of the callback's settings, the POST itself, json.Marshal of its answer, and the
-- text of an error.
pub record Caller (W : Type 0) : Type 1 where
  pub Answer : Type 0
  pub read_param : Bytes → NotifyHttpParam ⊎ Error
  pub post : NotifyHttpParam → Exec W Answer
  pub write_answer : Answer → Bytes
  pub error_text : Error → Bytes

-- `m()`, whose error is wrapped.
abbrev wrapped : {W A : Type 0} → (Error → Error) → Exec W A → Exec W A
wrapped wrap m = attempt m >>= λ o. elim o [ inl a ↦ pure a | inr e ↦ raise (wrap e) ]

module _ {W : Type 0} (host : Host W) (jobs : JobRepo W) (tasks : TimerTaskRepo W)
    (caller : Caller W) where
  open caller use {Answer, read_param, post, write_answer, error_text}

  unfoldable pub execute : JobTimer → Exec W Answer
  execute timer = elim (read_param timer.notify_http_param) [
    | inr e ↦ raise e
    | inl param ↦ post param
  ]

  -- What postProcess writes into the task before the two times are set.
  unfoldable pub with_outcome : Answer ⊎ Error → TaskTimer → TaskTimer
  with_outcome (inl resp) task = record task {
    output = write_answer resp;
    status = to_int successed;
  }
  with_outcome (inr e) task = record task { output = error_text e; status = to_int failed }

  -- Differences of int64 milliseconds, which wrap around; an int has 64 bits.
  unfoldable pub with_times : Time → Time → TaskTimer → TaskTimer
  with_times exec_time now task = record task {
    diff_time = to_int64 (to_uint64 (unix_milli exec_time -ℤ task.run_timer));
    cost_time = to_int64 (to_uint64 (unix_milli now -ℤ unix_milli exec_time));
  }

  unfoldable pub post_process : Context → Answer ⊎ Error → ℤ → ℤ → Time → Exec W (Unit {0})
  unfolding with_outcome with_times
  post_process ctx outcome timer_id unix exec_time = do
    task ← wrapped task_failed (tasks.get_tasks_by_timer_id_and_run_timer ctx timer_id unix)
    now ← host.now
    wrapped task_failed (tasks.update ctx (with_times exec_time now (with_outcome outcome task)))
    pure tt

  pub run_enabled : Context → JobTimer → ℤ → ℤ → Exec W (Unit {0})
  run_enabled ctx timer timer_id unix = do
    exec_time ← host.now
    outcome ← attempt (execute timer)
    post_process ctx outcome timer_id unix exec_time

  -- A timer that is not enabled is passed over.
  unfoldable pub execute_and_post_process : Context → ℤ → ℤ → Exec W (Unit {0})
  unfolding run_enabled post_process execute
  execute_and_post_process ctx timer_id unix = do
    timer ← wrapped timer_failed (jobs.find_by_id ctx timer_id)
    if eqb_ℤ timer.status (timer_to_int enabled)
        then run_enabled ctx timer timer_id unix
        else pure tt

  pub work_on : Context → ℤ × ℤ × Option Error → Exec W (Unit {0})
  work_on ctx (timer_id, unix, some e) = raise e
  work_on ctx (timer_id, unix, none) = execute_and_post_process ctx timer_id unix

  -- Work
  unfoldable pub work : Context → Bytes → Exec W (Unit {0})
  unfolding work_on execute_and_post_process
  work ctx timer_id_unix_key = work_on ctx (split_timer_id_unix timer_id_unix_key)
