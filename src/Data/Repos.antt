-- ===== src/Data/Repos.antt =====
-- The repositories and the transaction: internal/data/cron_job.go, internal/data/cron_task.go and
-- internal/data/data.go.
use codewave_timer.Base.{true, List, ℤ, if◌then◌else◌}
use codewave_timer.Exec.{Exec, pure, ◌>>=◌}
use codewave_timer.Model.{JobTimer, TaskTimer}
use codewave_timer.Biz.Ports.{Context, JobRepo, TimerTaskRepo, Transaction}
use codewave_timer.Data.Gorm.{Handle, Gorm, pool, tx}

-- Data.DB: the transaction of the context, or the pool.
unfoldable pub db : Context → Handle
db ctx = if ctx.has_tx then tx else pool

module _ {W : Type 0} (g : Gorm W) where
  save_timer : Context → JobTimer → Exec W JobTimer
  save_timer ctx timer = g.create_timer (db ctx) timer

  -- `r.data.Db.WithContext(ctx)` is the pool, also inside a transaction.
  update_timer : Context → JobTimer → Exec W JobTimer
  update_timer ctx timer = g.update_timer pool timer.timer_id timer >>= λ u. pure timer

  delete_timer : Context → ℤ → Exec W (Unit {0})
  delete_timer ctx id = g.delete_timer (db ctx) id

  find_timer_by_id : Context → ℤ → Exec W JobTimer
  find_timer_by_id ctx timer_id = g.first_timer pool timer_id

  find_timers_by_status : Context → ℤ → Exec W (List JobTimer)
  find_timers_by_status ctx status = g.find_timers pool status

  unfoldable pub job_repo : JobRepo W
  unfolding save_timer update_timer delete_timer find_timer_by_id find_timers_by_status
  job_repo = record {
    save = save_timer;
    update = update_timer;
    find_by_id = find_timer_by_id;
    find_by_status = find_timers_by_status;
    delete = delete_timer;
  }

  batch_save_tasks : Context → List TaskTimer → Exec W (Unit {0})
  batch_save_tasks ctx tasks = g.create_tasks (db ctx) tasks

  update_task : Context → TaskTimer → Exec W TaskTimer
  update_task ctx task = g.update_task pool task.task_id task >>= λ u. pure task

  tasks_by_time_range : Context → ℤ → ℤ → ℤ → Exec W (List TaskTimer)
  tasks_by_time_range ctx start_time end_time status = g.find_tasks pool start_time end_time status

  task_by_timer_id_and_run_timer : Context → ℤ → ℤ → Exec W TaskTimer
  task_by_timer_id_and_run_timer ctx timer_id run_timer = g.first_task pool timer_id run_timer

  unfoldable pub task_repo : TimerTaskRepo W
  unfolding batch_save_tasks update_task tasks_by_time_range task_by_timer_id_and_run_timer
  task_repo = record {
    batch_save = batch_save_tasks;
    update = update_task;
    get_tasks_by_time_range = tasks_by_time_range;
    get_tasks_by_timer_id_and_run_timer = task_by_timer_id_and_run_timer;
  }

  unfoldable pub in_tx : Context → (Context → Exec W (Unit {0})) → Exec W (Unit {0})
  in_tx ctx fn = g.transaction (fn (record ctx { has_tx = true }))

  unfoldable pub tx_manager : Transaction W
  unfolding in_tx
  tx_manager = record { in_tx = in_tx }
