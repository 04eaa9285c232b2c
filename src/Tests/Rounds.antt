-- ===== src/Tests/Rounds.antt =====
-- Runs of the migrator, the executor and the scheduler, and of a migration that fails.
use codewave_timer.Base.{
  ◌+◌, ◌*◌, ◌/◌, ◌≡◌, refl, ap, inl, inr, List, [], ◌∷◌, ◌++◌, none, some, Bytes, codes, ℤ, pos,
  false, ok, ltb, if◌then◌else◌, foreign,
}
use codewave_timer.GoLib.Split.{split}
use codewave_timer.GoLib.Clock.{minute, zero_time}
use codewave_timer.Exec.{Exec, pure, raise}
use codewave_timer.Config.{Config, shipped}
use codewave_timer.Redis.{RedisServer}
use codewave_timer.Cron.{CronLibrary, parsed}
use codewave_timer.Model.{JobTimer, timer_to_int, enabled}
use codewave_timer.Biz.Ports.{Context, JobRepo, TimerTaskRepo, TaskCache, Host}
use codewave_timer.Biz.Scheduler.{Slice, handle_slices}
use codewave_timer.Biz.Scheduler.Submitted.{slices_from, handle_slices-submits}
use codewave_timer.Biz.Executor
use codewave_timer.Biz.Executor.{Caller}
use codewave_timer.Biz.Executor.Recorded.{Worked, work-ok}
use codewave_timer.Keys.{split_timer_id_unix}
use codewave_timer.Data.TaskCache.Members.{ok-inj}
use codewave_timer.Data.Gorm.{Gorm, HasTransactions}
use codewave_timer.Data.TaskCache.Migrated.{year_2100}
use codewave_timer.HttpClient.{new_http_client, with_timeout}
use codewave_timer.HttpClient.Bounds.{IsBounded, new_http_client-IsBounded}
use codewave_timer.Tests.Server.{World, empty}
use codewave_timer.Tests.Biz.{host, timer, task, ctx, t0, jobs}

abbrev pub on : JobTimer
on = record timer { status = timer_to_int enabled }

-- One step of the migrator is one minute.
abbrev pub short : Config
short = record shipped { migrator = record { workers_num = 1; migrate_step_minutes = 1 } }

abbrev pub tasks : TimerTaskRepo World
tasks = record {
  batch_save = λ c ts. pure tt;
  update = λ c t. pure t;
  get_tasks_by_time_range = λ c a b st. pure (task ∷ []);
  get_tasks_by_timer_id_and_run_timer = λ c id unix. pure task;
}

abbrev cache : TaskCache World
cache = record {
  batch_create_tasks = λ c ts. pure tt;
  get_tasks_by_time = λ c k a b. pure (task ∷ []);
}

-- Each full minute up to the last year of an expression; then the zero time.
abbrev pub minutely : CronLibrary
minutely = record {
  Expr = Unit {0};
  parse = λ s. parsed tt;
  next = λ e t. let u = (t / minute + 1) * minute in if ltb u year_2100 then u else zero_time;
}

abbrev caller : Caller World
caller = record {
  Answer = Bytes;
  read_param = λ b. inl (record { url = b; method = []; headers = []; body = [] });
  post = λ p. raise (foreign 500);
  write_answer = λ b. b;
  error_text = λ e. codes "failed";
}

abbrev jobs_on : JobRepo World
jobs_on = record jobs { find_by_id = λ c id. pure on }

work_example :
    (id unix : ℤ) × (split_timer_id_unix (codes "7_12") ≡ (id, unix, none))
    × Worked host jobs_on tasks caller ctx id unix empty
        (Executor.work host jobs_on tasks caller ctx (codes "7_12") empty)
unfolding Executor.work split_timer_id_unix split
work_example = work-ok host jobs_on tasks caller ctx (codes "7_12") empty refl

abbrev slice_host : Host (List Slice)
slice_host = record { now = pure t0; sleep = λ d. pure tt }

abbrev submit : Slice → Exec (List Slice) (Unit {0})
submit s w = (ok tt, w ++ s ∷ [])

handle_slices_example :
    ((handle_slices slice_host submit shipped []).0 ≡ ok tt)
    × ((handle_slices slice_host submit shipped []).1 ≡ slices_from t0 0 5)
handle_slices_example =
    handle_slices-submits slice_host submit (λ w. w) t0 (λ w. refl) (λ s w. (inl refl, refl))
      shipped []

-- A database with one timer, whose status is the world, and which never fails.
abbrev database : Gorm ℤ
database = record {
  create_timer = λ h t. pure t;
  update_timer = λ h id t w. (ok tt, t.status);
  delete_timer = λ h id. pure tt;
  first_timer = λ h id w. (ok (record timer { status = w }), w);
  find_timers = λ h st. pure [];
  create_tasks = λ h ts. pure tt;
  update_task = λ h id t. pure tt;
  find_tasks = λ h a b st. pure [];
  first_task = λ h id unix. pure task;
  transaction = λ m. m;
}

database-HasTransactions : HasTransactions database
database-HasTransactions = record {
  status = λ id w. some w;
  first_pool = λ id t w h. ap (λ (u : JobTimer). some u.status) (ok-inj h);
  update_pool = λ id t old w there nonzero h. refl;
  rolled_back = λ m w e h. inr (h, λ id. refl);
}

-- A server that is not called.
abbrev idle : RedisServer ℤ
idle = record {
  get = λ k w. none;
  set_nx = λ k v ttl w. (false, w);
  del = λ k w. (0, w);
  expire = λ k ttl w. (0, w);
  expire_after = λ k d w. w;
  zadd = λ k sc m w. w;
  zrange_by_score = λ k lo hi w. [];
  send = λ A f w. (ok (f w).0, (f w).1);
}

abbrev no_migration : Context → JobTimer → Exec ℤ (Unit {0})
no_migration c t = raise (foreign 2)

http_client_example : IsBounded (new_http_client (with_timeout (pos 0) ∷ []))
http_client_example = new_http_client-IsBounded (with_timeout (pos 0) ∷ [])
