-- ===== src/Biz/Migrator.antt =====
-- The migrator, which writes the coming tasks of an enabled timer into database and cache:
-- internal/biz/migrator.go, and BatchTasksFromTimer of internal/biz/cron_job_biz.go.
pub mod Migrated
use codewave_timer.Base.{
  ℕ, ◌+◌, ◌*◌, List, [], ◌∷◌, map, Bytes, codes, ℤ, pos, eqb_ℤ, if◌then◌else◌, Result, wrong_status,
}
use codewave_timer.GoLib.Clock.{Time, minute, second, unix_milli}
use codewave_timer.Exec.{Exec, pure, raise, lift, attempt, ◌>>=◌, ◌>>◌}
use codewave_timer.Config.{Config}
use codewave_timer.Cron.{CronLibrary, nexts_before}
use codewave_timer.Model.{JobTimer, TaskTimer, to_int, not_runned, timer_to_int, enabled}
use codewave_timer.Biz.Ports.{Context, JobRepo, TimerTaskRepo, TaskCache, Host}

unfoldable pub task_at : JobTimer → Time → TaskTimer
task_at t execute_time = record {
  task_id = pos 0;
  app = t.app;
  timer_id = t.timer_id;
  output = [];
  run_timer = unix_milli execute_time;
  cost_time = pos 0;
  diff_time = pos 0;
  status = to_int not_runned;
}

unfoldable pub batch_tasks_from_timer : JobTimer → List Time → List TaskTimer
unfolding task_at
batch_tasks_from_timer t execute_times = map (task_at t) execute_times

module _ {W : Type 0} (c : CronLibrary) (conf : Config) (host : Host W) (jobs : JobRepo W)
    (tasks : TimerTaskRepo W) (cache : TaskCache W) where
  unfoldable pub migrate_enabled : Context → JobTimer → Exec W (Unit {0})
  migrate_enabled ctx timer = do
    start ← host.now
    let end = start + 2 * conf.migrator.migrate_step_minutes * minute
    now ← host.now
    execute_times ← lift (nexts_before c now timer.cron end)
    let batch = batch_tasks_from_timer timer execute_times
    tasks.batch_save ctx batch
    cache.batch_create_tasks ctx batch

  unfoldable pub migrator_timer : Context → JobTimer → Exec W (Unit {0})
  unfolding migrate_enabled
  migrator_timer ctx timer =
      if eqb_ℤ timer.status (timer_to_int enabled)
      then migrate_enabled ctx timer
      else raise wrong_status

  -- A timer that fails is logged and passed over.
  unfoldable pub migrate_all : Context → List JobTimer → Exec W (Unit {0})
  migrate_all ctx [] = pure tt
  migrate_all ctx (timer ∷ timers) = do
    r ← attempt (migrator_timer ctx timer)
    host.sleep (5 * second)
    migrate_all ctx timers

  unfoldable pub batch_migrator_timer : Context → Exec W (Unit {0})
  unfolding migrate_all
  batch_migrator_timer ctx = do
    timers ← jobs.find_by_status ctx (timer_to_int enabled)
    migrate_all ctx timers
