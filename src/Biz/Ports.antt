-- ===== src/Biz/Ports.antt =====
-- The interfaces between the use cases and the data layer: internal/biz/biz.go,
-- internal/biz/cron_job_biz.go and internal/biz/cron_task_biz.go.
use codewave_timer.Base.{Bool, List, Bytes, ℤ}
use codewave_timer.GoLib.Clock.{Time, Duration}
use codewave_timer.Exec.{Exec}
use codewave_timer.Model.{JobTimer, TaskTimer}

-- A context: whether it carries the handle of an open transaction.
pub record Context : Type 0 where
  pub has_tx : Bool

pub record JobRepo (W : Type 0) : Type 0 where
  pub save : Context → JobTimer → Exec W JobTimer
  pub update : Context → JobTimer → Exec W JobTimer
  pub find_by_id : Context → ℤ → Exec W JobTimer
  pub find_by_status : Context → ℤ → Exec W (List JobTimer)
  pub delete : Context → ℤ → Exec W (Unit {0})

pub record TimerTaskRepo (W : Type 0) : Type 0 where
  pub batch_save : Context → List TaskTimer → Exec W (Unit {0})
  pub update : Context → TaskTimer → Exec W TaskTimer
  pub get_tasks_by_time_range : Context → ℤ → ℤ → ℤ → Exec W (List TaskTimer)
  pub get_tasks_by_timer_id_and_run_timer : Context → ℤ → ℤ → Exec W TaskTimer

pub record TaskCache (W : Type 0) : Type 0 where
  pub batch_create_tasks : Context → List TaskTimer → Exec W (Unit {0})
  pub get_tasks_by_time : Context → Bytes → ℤ → ℤ → Exec W (List TaskTimer)

pub record Transaction (W : Type 0) : Type 0 where
  pub in_tx : Context → (Context → Exec W (Unit {0})) → Exec W (Unit {0})

-- time.Now and time.Sleep.
pub record Host (W : Type 0) : Type 0 where
  pub now : Exec W Time
  pub sleep : Duration → Exec W (Unit {0})
