-- ===== src/UseCases.antt =====
-- The objects of the use cases, the data layer and the service, as their constructors make them:
-- New… of internal/biz, internal/data and internal/service.
use codewave_timer.Base.{pos, Option}
use codewave_timer.GoLib.Clock.{Location}
use codewave_timer.Exec.{Exec, pure, ◌>>=◌}
use codewave_timer.Config.{Config}
use codewave_timer.Redis.{RedisServer}
use codewave_timer.Biz.Ports.{JobRepo, TimerTaskRepo, TaskCache, Transaction, Host}
use codewave_timer.HttpClient.{JsonClient}
use codewave_timer.Pool.{Ants, new_go_worker_pool}
use codewave_timer.Data.Gorm.{Gorm}
use codewave_timer.Data.Repos.{job_repo, task_repo, tx_manager}
use codewave_timer.Data.TaskCache.{redis_cache}

-- Data of internal/data/data.go: the connections, each of which may be nil.
pub record DataLayer (Db Client : Type 0) : Type 0 where
  pub db : Option Db
  pub cache : Option Client

-- The repositories over gorm and redis, and what these are for a connection that may be nil.
module _ {W Db Client : Type 0} (gorm_of : Option Db → Gorm W)
    (server_of : Option Client → RedisServer W) (host : Host W) (loc : Location) where
  unfoldable pub new_job_repo : DataLayer Db Client → JobRepo W
  new_job_repo d = job_repo (gorm_of d.db)

  unfoldable pub new_task_repo : DataLayer Db Client → TimerTaskRepo W
  new_task_repo d = task_repo (gorm_of d.db)

  unfoldable pub new_transaction : DataLayer Db Client → Transaction W
  new_transaction d = tx_manager (gorm_of d.db)

  unfoldable pub new_redis_cache : Config → DataLayer Db Client → TaskCache W
  new_redis_cache conf d = redis_cache (server_of d.cache) host loc conf.scheduler.buckets_num

pub record MigratorUseCase (W : Type 0) : Type 0 where
  pub conf_data : Config
  pub timer_repo : JobRepo W
  pub task_repo : TimerTaskRepo W
  pub task_cache : TaskCache W

pub record CronJobUseCase (W : Type 0) : Type 0 where
  pub conf_data : Config
  pub timer_repo : JobRepo W
  pub task_repo : TimerTaskRepo W
  pub task_cache : TaskCache W
  pub tm : Transaction W
  pub muc : MigratorUseCase W

-- It drops the task cache that its constructor is given.
pub record ExecutorUseCase (W : Type 0) : Type 0 where
  pub conf_data : Config
  pub timer_repo : JobRepo W
  pub task_repo : TimerTaskRepo W
  pub http_client : JsonClient

pub record TriggerUseCase (W Pool : Type 0) : Type 0 where
  pub conf_data : Config
  pub timer_repo : JobRepo W
  pub task_repo : TimerTaskRepo W
  pub task_cache : TaskCache W
  pub pool : Pool
  pub slow_pool : Pool
  pub executor : ExecutorUseCase W

pub record SchedulerUseCase (W Pool : Type 0) : Type 0 where
  pub conf_data : Config
  pub timer_repo : JobRepo W
  pub task_repo : TimerTaskRepo W
  pub task_cache : TaskCache W
  pub pool : Pool
  pub trigger : TriggerUseCase W Pool

pub record CodewaveTimerService (W Pool : Type 0) : Type 0 where
  pub timer_uc : CronJobUseCase W
  pub scheduler_uc : SchedulerUseCase W Pool
  pub migrator_uc : MigratorUseCase W

module _ {W : Type 0} (conf : Config) (jobs : JobRepo W) (tasks : TimerTaskRepo W)
    (cache : TaskCache W) where
  unfoldable pub new_migrator_use_case : MigratorUseCase W
  new_migrator_use_case = record {
    conf_data = conf;
    timer_repo = jobs;
    task_repo = tasks;
    task_cache = cache;
  }

  unfoldable pub new_cron_job_use_case : Transaction W → MigratorUseCase W → CronJobUseCase W
  new_cron_job_use_case tm muc = record {
    conf_data = conf;
    timer_repo = jobs;
    task_repo = tasks;
    task_cache = cache;
    tm = tm;
    muc = muc;
  }

  unfoldable pub new_executor_use_case : JsonClient → ExecutorUseCase W
  new_executor_use_case http_client = record {
    conf_data = conf;
    timer_repo = jobs;
    task_repo = tasks;
    http_client = http_client;
  }

  module _ (ants : Ants W) where
    open ants use {Pool}

    unfoldable pub new_trigger_use_case : ExecutorUseCase W → Exec W (TriggerUseCase W Pool)
    new_trigger_use_case executor = do
      pool ← new_go_worker_pool ants (pos conf.trigger.workers_num)
      slow_pool ← new_go_worker_pool ants (pos conf.trigger.slow_workers_num)
      pure (record {
        conf_data = conf;
        timer_repo = jobs;
        task_repo = tasks;
        task_cache = cache;
        pool = pool;
        slow_pool = slow_pool;
        executor = executor;
      })

    unfoldable pub new_scheduler_use_case : TriggerUseCase W Pool → Exec W (SchedulerUseCase W Pool)
    new_scheduler_use_case trigger = do
      pool ← new_go_worker_pool ants (pos conf.scheduler.workers_num)
      pure (record {
        conf_data = conf;
        timer_repo = jobs;
        task_repo = tasks;
        task_cache = cache;
        pool = pool;
        trigger = trigger;
      })

unfoldable pub new_codewave_timer_service :
    {W Pool : Type 0}
    → CronJobUseCase W
    → SchedulerUseCase W Pool
    → MigratorUseCase W
    → CodewaveTimerService W Pool
new_codewave_timer_service timer_uc scheduler_uc migrator_uc = record {
  timer_uc = timer_uc;
  scheduler_uc = scheduler_uc;
  migrator_uc = migrator_uc;
}
