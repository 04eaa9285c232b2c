-- ===== src/Wiring.antt =====
-- The parts put together: NewServiceContext of internal/svc/servicecontext.go, and its two jobs. The
-- libraries are parameters.
pub mod Jobs
pub mod Parts
pub mod Started
use codewave_timer.Base.{
  Bool, false, true, List, [], ◌∷◌, Bytes, codes, Option, ◌⊎◌, inl, inr, Error, Result,
}
use codewave_timer.GoLib.Clock.{Location}
use codewave_timer.Config.{Config}
use codewave_timer.Exec.{Exec, pure, attempt, ◌>>=◌, ◌>>◌}
use codewave_timer.Settings.{GlobalConfig, config_of}
use codewave_timer.Redis.{RedisServer}
use codewave_timer.Cron.{CronLibrary}
use codewave_timer.Biz.Ports.{Context, Host, JobRepo, TimerTaskRepo, TaskCache, Transaction}
use codewave_timer.Biz.Migrator.{batch_migrator_timer}
use codewave_timer.Biz.Scheduler
use codewave_timer.Biz.Scheduler.{Slice}
use codewave_timer.HttpClient.{new_http_client}
use codewave_timer.Pool.{Ants}
use codewave_timer.Data.Gorm.{Gorm}
use codewave_timer.Data.Start.{Sql, Once, get_data_base, get_cache}
use codewave_timer.RedisClient.Conn.{RedisState, ClientOptions, Cmd}
use codewave_timer.Trace.{Values, background, with_value, Otel, init_tracer_provider}
use codewave_timer.TimerTask.{
  Process, Robfig, on_world, fatalf, new_timer_task, start, add_startup_job, add_recurring_job,
}
use codewave_timer.UseCases.{
  DataLayer, CronJobUseCase, MigratorUseCase, ExecutorUseCase, TriggerUseCase, SchedulerUseCase,
  CodewaveTimerService, new_job_repo, new_task_repo, new_transaction, new_redis_cache,
  new_migrator_use_case, new_cron_job_use_case, new_executor_use_case, new_trigger_use_case,
  new_scheduler_use_case, new_codewave_timer_service,
}

-- The two functions that NewServiceContext hands to its TimerTask, each with what it has captured.
pub data Job (W Pool : Type 0) : Type 0 where
  schedules : SchedulerUseCase W Pool → Values → Job W Pool
  migrates : MigratorUseCase W → Values → Job W Pool

-- What the start works on: the variables of internal/data/init.go, the redis client, and the world
-- of the use cases.
pub record State (W Db S : Type 0) : Type 0 where
  pub db_once : Once Db
  pub cache_once : Once (Unit {0})
  pub redis_state : RedisState S
  pub outside : W

module _ {W Db S : Type 0} where
  pub on_db : {A : Type 0} → Exec (Once Db × W) A → Exec (State W Db S) A
  on_db m s =
      let (r, (o, w)) = m (s.db_once, s.outside) in (r, record s { db_once = o; outside = w })

  pub on_cache : {A : Type 0} → Exec (Once (Unit {0}) × RedisState S) A → Exec (State W Db S) A
  on_cache m s =
      let (r, (o, c)) = m (s.cache_once, s.redis_state) in
      (r, record s { cache_once = o; redis_state = c })

  pub on_outside : {A : Type 0} → Exec W A → Exec (State W Db S) A
  on_outside m s = let (r, w) = m s.outside in (r, record s { outside = w })

-- gorm and redis are given for a connection that may be nil.
pub record Libraries (W S : Type 0) : Type 1 where
  pub sql : Sql W
  pub ants : Ants W
  pub otel : Otel W
  pub robfig : Robfig (Job W ants.Pool) (State W sql.Db S)
  pub gorm_of : Option sql.Db → Gorm W
  pub server_of : Option (Unit {0}) → RedisServer W
  pub new_client : ClientOptions → Bool
  pub ping : ClientOptions → Cmd S Bytes
  pub host : Host W
  pub loc : Location
  pub new_uuid : Exec W Bytes

abbrev pub collector : Bytes
collector = codes "http://localhost:14268/api/traces"

-- The key of the trace in the context of the jobs.
abbrev pub job_trace_key : Bytes
job_trace_key = codes "Trace-ID"

abbrev pub every_half_hour : Bytes
every_half_hour = codes "@every 30m"

module _ {W S : Type 0} (lib : Libraries W S) where
  open lib use {sql, ants, otel, robfig, gorm_of, server_of, host, loc}

  abbrev pub Started : Type 0 → Type 0
  Started A = Exec (Process (Job W ants.Pool) (State W sql.Db S)) A

  pub record ServiceContext : Type 0 where
    pub config : GlobalConfig
    pub db : Option sql.Db
    pub cache : Option (Unit {0})
    pub job_repo : JobRepo W
    pub task_repo : TimerTaskRepo W
    pub tx_manager : Transaction W
    pub task_cache : TaskCache W
    pub cron_job_uc : CronJobUseCase W
    pub scheduler_uc : SchedulerUseCase W ants.Pool
    pub migrator_uc : MigratorUseCase W
    pub timer_task : robfig.Cron
    pub service : CodewaveTimerService W ants.Pool
    pub tracer_provider : otel.TracerProvider

  -- The end of NewServiceContext, once the parts stand: tracing, the timer task and its two jobs.
  pub tracer_or_fatal : otel.TracerProvider ⊎ Error → Started otel.TracerProvider
  tracer_or_fatal (inl tp) = pure tp
  tracer_or_fatal (inr e) = fatalf

  module _ (scheduler_uc : SchedulerUseCase W ants.Pool) (migrator_uc : MigratorUseCase W) where
    pub add_jobs :
        otel.TracerProvider → robfig.Cron → Bytes → Started (otel.TracerProvider × robfig.Cron)
    add_jobs tracer_provider timer_task trace_id = do
      let ctx = with_value background job_trace_key trace_id
      add_startup_job robfig timer_task (schedules scheduler_uc ctx)
      add_recurring_job robfig timer_task every_half_hour (migrates migrator_uc ctx)
      pure (tracer_provider, timer_task)

    pub begin_jobs : otel.TracerProvider → Started (otel.TracerProvider × robfig.Cron)
    begin_jobs tracer_provider = do
      timer_task ← new_timer_task robfig
      start robfig timer_task
      trace_id ← on_world (on_outside lib.new_uuid)
      add_jobs tracer_provider timer_task trace_id

    pub start_jobs : Started (otel.TracerProvider × robfig.Cron)
    start_jobs = do
      r ← attempt (on_world (on_outside (init_tracer_provider otel collector)))
      tracer_provider ← tracer_or_fatal r
      begin_jobs tracer_provider

  -- The parts over the connections.
  module _ (c : GlobalConfig) (db : Option sql.Db) (cache : Option (Unit {0})) where
    abbrev data_layer : DataLayer sql.Db (Unit {0})
    data_layer = record { db = db; cache = cache }

    abbrev conf : Config
    conf = config_of c.data_config

    abbrev jobs : JobRepo W
    jobs = new_job_repo gorm_of server_of host loc data_layer

    abbrev tasks : TimerTaskRepo W
    tasks = new_task_repo gorm_of server_of host loc data_layer

    abbrev tasks_cached : TaskCache W
    tasks_cached = new_redis_cache gorm_of server_of host loc conf data_layer

    abbrev tm : Transaction W
    tm = new_transaction gorm_of server_of host loc data_layer

    abbrev pub the_migrator : MigratorUseCase W
    the_migrator = new_migrator_use_case conf jobs tasks tasks_cached

    abbrev pub the_cron_jobs : CronJobUseCase W
    the_cron_jobs = new_cron_job_use_case conf jobs tasks tasks_cached tm the_migrator

    abbrev pub the_executor : ExecutorUseCase W
    the_executor = new_executor_use_case conf jobs tasks tasks_cached (new_http_client [])

    pub new_trigger : Exec W (TriggerUseCase W ants.Pool)
    unfolding new_trigger_use_case
    new_trigger = new_trigger_use_case conf jobs tasks tasks_cached ants the_executor

    pub new_scheduler : TriggerUseCase W ants.Pool → Exec W (SchedulerUseCase W ants.Pool)
    unfolding new_scheduler_use_case
    new_scheduler trigger_uc = new_scheduler_use_case conf jobs tasks tasks_cached ants trigger_uc

    pub the_context :
        SchedulerUseCase W ants.Pool → otel.TracerProvider × robfig.Cron → ServiceContext
    the_context scheduler_uc begun = record {
      config = c;
      db = db;
      cache = cache;
      job_repo = jobs;
      task_repo = tasks;
      tx_manager = tm;
      task_cache = tasks_cached;
      cron_job_uc = the_cron_jobs;
      scheduler_uc = scheduler_uc;
      migrator_uc = the_migrator;
      timer_task = begun.1;
      service = new_codewave_timer_service the_cron_jobs scheduler_uc the_migrator;
      tracer_provider = begun.0;
    }

    pub assemble : Started ServiceContext
    unfolding start_jobs begin_jobs add_jobs tracer_or_fatal new_trigger new_scheduler the_context
    assemble = do
      trigger_uc ← on_world (on_outside new_trigger)
      scheduler_uc ← on_world (on_outside (new_scheduler trigger_uc))
      begun ← start_jobs scheduler_uc the_migrator
      pure (the_context scheduler_uc begun)

  -- NewServiceContext
  unfoldable pub new_service_context : GlobalConfig → Started ServiceContext
  unfolding assemble on_db on_cache on_outside
  new_service_context c = do
    db ← on_world (on_db (get_data_base sql c.data_config.database))
    cache ← on_world (on_cache (get_cache lib.new_client lib.ping c.data_config.redis))
    assemble c db cache

-- The bodies of the two jobs: their errors are logged or dropped. `submit` is Submit of a pool, and
-- `ticks` says at each tick of the scheduler whether its context is done.
module _ {W Pool : Type 0} (c : CronLibrary) (host : Host W)
    (submit : Pool → Slice → Exec W (Unit {0})) (ticks : List Bool) where
  abbrev no_tx : Context
  no_tx = record { has_tx = false }

  unfoldable pub run_job : Job W Pool → Exec W (Unit {0})
  run_job (schedules uc ctx) =
      attempt (Scheduler.work host (submit uc.pool) uc.conf_data false ticks) >>= λ o. pure tt
  run_job (migrates uc ctx) =
      attempt
        (batch_migrator_timer c uc.conf_data host uc.timer_repo uc.task_repo uc.task_cache no_tx)
      >>= λ o. pure tt
