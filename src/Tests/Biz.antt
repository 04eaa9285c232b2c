-- ===== src/Tests/Biz.antt =====
-- Runs of the use cases on the server of the tests, with one timer and a clock that stands still.
use codewave_timer.Base.{
  ◌+◌, ◌*◌, ◌<◌, ◌≤◌, ◌≡◌, refl, arith, ◌⊎◌, inl, Has, List, [], ◌∷◌, none, Bytes, codes, pos, true,
  false, ◌-ℤ◌, rem_ℤ, ok, Error, foreign,
}
use codewave_timer.Base.{Result, inr}
use codewave_timer.GoLib.Clock.{Time, Location, second, minute, epoch, of_unix_milli}
use codewave_timer.Exec.{Exec, pure, raise}
use codewave_timer.Redis.{pipeline, client_zrange_by_score}
use codewave_timer.Keys.{get_table_name, table_bucket, get_slice_msg_key, get_enable_lock_key}
use codewave_timer.Model.{
  JobTimer, TaskTimer, NotifyHttpParam, CreateTimerRequest, timer_to_int, unabled, enabled, to_int,
  not_runned,
}
use codewave_timer.Biz.Ports.{Context, JobRepo, Transaction, Host}
use codewave_timer.Biz.CronJob.{enable_in_tx, enable_unabled, enable_timer}
use codewave_timer.Biz.CronJob.Enable.{enable_in_tx-ok}
use codewave_timer.Biz.Trigger.Run.{tick, ends, waits, returned, run_events, begin, Event, take_at}
use codewave_timer.Biz.Trigger.Run.Invariant.{covered}
use codewave_timer.Biz.Trigger.Run.Ends.{schedule, schedule_returns}
use codewave_timer.Biz.Trigger.Run.Ack.{acknowledged_complete, acknowledged_unsound}
use codewave_timer.Biz.SafeChan.{new_safe_chan, put, poll, close}
use codewave_timer.Data.TaskCache.{
  batch_create_tasks, queue_tasks, get_tasks_by_time, tasks_of_members,
}
use codewave_timer.Data.TaskCache.Members.{IsFresh, recalled}
use codewave_timer.Data.TaskCache.Contents.{batch_create_tasks_cached}
use codewave_timer.Service
use codewave_timer.Service.{TimerRequest, answer_ok, requested, trace_id_of, logic}
use codewave_timer.Service.Answers.{enable_timer_answers_held}
use codewave_timer.Tests.Server.{World, empty, server, server-IsRedis, server-HasSortedSets}

abbrev pub shanghai : Location
shanghai = record { east = 480; west = 0 }

-- 14 November 2023, 22:13:20 UTC
abbrev pub t0 : Time
t0 = epoch + 1700000000 * second

abbrev pub host : Host World
host = record { now = pure t0; sleep = λ d. pure tt }

abbrev pub task : TaskTimer
task = record {
  task_id = pos 1;
  app = codes "shop";
  timer_id = pos 7;
  output = [];
  run_timer = pos 1700000012000;
  cost_time = pos 0;
  diff_time = pos 0;
  status = to_int not_runned;
}

abbrev pub timer : JobTimer
timer = record {
  timer_id = pos 7;
  app = codes "shop";
  name = codes "report";
  status = timer_to_int unabled;
  cron = codes "* * * * *";
  notify_http_param = [];
  create_time = none;
  modify_time = none;
}

abbrev pub ctx : Context
ctx = record { has_tx = false }

task-IsFresh : IsFresh t0 task
unfolding of_unix_milli
task-IsFresh = record { run = omega arith; timer = omega arith; nonneg = refl; alive = omega arith }

abbrev table : Bytes
table = get_slice_msg_key shanghai (of_unix_milli task.run_timer) (pos 2)

abbrev cached : World
cached = (batch_create_tasks server host shanghai 5 ctx (task ∷ []) empty).1

abbrev found : List TaskTimer
found =
    tasks_of_members (server.zrange_by_score table (pos 1700000012000) (pos 1700000012999) cached)

cached_example : Has (recalled task) found
unfolding batch_create_tasks queue_tasks get_table_name table_bucket pipeline get_tasks_by_time
    client_zrange_by_score get_slice_msg_key ◌-ℤ◌ rem_ℤ
cached_example =
    batch_create_tasks_cached server server-HasSortedSets host shanghai 5 t0 server-IsRedis
      (λ w t e. ground arith) ctx ctx (task ∷ []) empty task table (pos 1700000012000)
      (pos 1700000013000) found (task-IsFresh, tt) refl (inl refl) refl refl (omega arith)
      (omega arith)

abbrev handled : Time → Exec World (Unit {0})
handled s = pure tt

abbrev events : List Event
events = tick ∷ tick ∷ ends 1 ∷ ends 0 ∷ waits ∷ []

acknowledged_complete_example :
    ((run_events (30 * second) (t0 + minute) handled (pure tt) events (begin 30 t0 empty)).failed
      ≡ [])
    × ((t : Time)
        → t0 ≤ t
        → t < t0 + minute
        → covered
            (30 * second)
            (run_events
              (30 * second)
              (t0 + minute)
              handled
              (pure tt)
              events
              (begin 30 t0 empty)).succeeded
            t
          ≡ 1)
unfolding run_events begin take_at new_safe_chan put poll close
acknowledged_complete_example =
    acknowledged_complete 30 t0 handled (pure tt) events empty (omega arith) (omega arith) refl

abbrev failing : Time → Exec World (Unit {0})
failing s = raise (foreign 7)

acknowledged_unsound_example :
    let run =
      run_events
        (90 * second)
        (t0 + minute)
        failing
        (pure tt)
        (tick ∷ ends 0 ∷ waits ∷ [])
        (begin 90 t0 empty) in
    (run.failed ≡ t0 ∷ [])
    × (run.succeeded ≡ [])
    × (run.phase ≡ returned (ok tt))
    × (run.world ≡ empty)
acknowledged_unsound_example =
    acknowledged_unsound 90 t0 failing (pure tt) empty empty (foreign 7) (omega arith) refl

-- A repository with the one timer, which does not store anything.
abbrev pub jobs : JobRepo World
jobs = record {
  save = λ c t. pure (record t { timer_id = pos 7 });
  update = λ c t. pure t;
  find_by_id = λ c id. pure timer;
  find_by_status = λ c st. pure (timer ∷ []);
  delete = λ c id. pure tt;
}

abbrev tm : Transaction World
tm = record { in_tx = λ c fn. fn (record c { has_tx = true }) }

abbrev migrated : Context → JobTimer → Exec World (Unit {0})
migrated c t = pure tt

enable_in_tx_example :
    (found_timer saved : JobTimer) × ((jobs.find_by_id ctx (pos 7) empty).0 ≡ ok found_timer)
    × (found_timer.status ≡ timer_to_int unabled)
    × ((jobs.update ctx (record found_timer { status = timer_to_int enabled }) empty).0 ≡ ok saved)
    × (enable_in_tx server jobs tm migrated (pos 7) ctx empty
        ≡ migrated ctx (record found_timer { status = timer_to_int enabled }) empty)
unfolding enable_in_tx enable_unabled
enable_in_tx_example = enable_in_tx-ok server jobs tm migrated (pos 7) ctx empty refl

-- Another client holds the lock of the app.
abbrev pub locked : World
locked =
    (server.set_nx (get_enable_lock_key (codes "shop")) (codes "other") (pos 3000000000) empty).1

abbrev request : TimerRequest
request = record { app = codes "shop"; timer_id = pos 7 }

abbrev create_request : CreateTimerRequest
create_request = record {
  app = codes "shop";
  name = codes "report";
  status = pos 2;
  cron = codes "* * * * *";
  notify_http_param = record {
    url = codes "http://shop";
    method = codes "POST";
    headers = [];
    body = [];
  };
}

abbrev marshal : NotifyHttpParam → Bytes ⊎ Error
marshal p = inl p.url

enable_timer_answers_held_example :
    logic none
      (Service.enable_timer (enable_timer server jobs tm migrated (codes "mine") ctx))
      request
      locked
    ≡ (ok (record (answer_ok (pos 7)) { trace_id = trace_id_of none }), locked)
unfolding get_enable_lock_key
enable_timer_answers_held_example =
    enable_timer_answers_held server jobs tm migrated server-IsRedis (codes "mine") ctx none request
      locked (codes "other") refl (λ e. ground arith)

schedule_returns_example :
    (r : Result (Unit {0})) × ((run_events
        (30 * second)
        (t0 + minute)
        failing
        (pure tt)
        (schedule 2)
        (begin 30 t0 empty)).phase
      ≡ returned r)
schedule_returns_example =
    schedule_returns 30 t0 failing (pure tt) 2 empty (λ s w. inr (foreign 7, refl)) (omega arith)
