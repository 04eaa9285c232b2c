-- ===== src/Model.antt =====
-- The rows of the two tables and the status numbers: internal/biz/cron_job_biz.go,
-- internal/biz/cron_task_biz.go, internal/constant/timer.go and internal/types/types.go.
use codewave_timer.Base.{List, Option, Bytes, ℤ, pos}
use codewave_timer.GoLib.Clock.{Time}

pub record JobTimer : Type 0 where
  pub timer_id : ℤ
  pub app : Bytes
  pub name : Bytes
  pub status : ℤ
  pub cron : Bytes
  pub notify_http_param : Bytes
  pub create_time : Option Time
  pub modify_time : Option Time

pub record TaskTimer : Type 0 where
  pub task_id : ℤ
  pub app : Bytes
  pub timer_id : ℤ
  pub output : Bytes
  pub run_timer : ℤ  -- milliseconds since 1970
  pub cost_time : ℤ
  pub diff_time : ℤ
  pub status : ℤ

pub data TaskStatus : Type 0 where
  not_runned running successed failed : TaskStatus

pub data TimerStatus : Type 0 where
  unabled enabled : TimerStatus

abbrev pub to_int : TaskStatus → ℤ
to_int not_runned = pos 0
to_int running = pos 1
to_int successed = pos 2
to_int failed = pos 3

abbrev pub timer_to_int : TimerStatus → ℤ
timer_to_int unabled = pos 1
timer_to_int enabled = pos 2

pub record NotifyHttpParam : Type 0 where
  pub url : Bytes
  pub method : Bytes
  pub headers : List (Bytes × Bytes)
  pub body : Bytes

pub record CreateTimerRequest : Type 0 where
  pub app : Bytes
  pub name : Bytes
  pub status : ℤ
  pub cron : Bytes
  pub notify_http_param : NotifyHttpParam

pub record Response : Type 0 where
  pub code : ℤ
  pub message : Bytes
  pub payload : Bytes  -- the field `Data`
  pub trace_id : Bytes
