-- ===== src/Tests/Process.antt =====
-- The process on libraries that work, and its requests.
use codewave_timer.Base.{◌≡◌, refl, inl, none, some, true, false, [], Bytes, codes, ◌∷◌, ℤ, pos, ok}
use codewave_timer.Config.{shipped}
use codewave_timer.Exec.{pure}
use codewave_timer.Pool.{new_go_worker_pool}
use codewave_timer.RedisClient.Conn.{init, new_redis_conn}
use codewave_timer.HttpClient.{new_http_client}
use codewave_timer.Data.Start.{get_data_base, get_cache, new_database, new_cache}
use codewave_timer.Data.Repos.{job_repo, task_repo, tx_manager}
use codewave_timer.Data.TaskCache.{redis_cache}
use codewave_timer.Settings.{GlobalConfig, Viper, get_global_config}
use codewave_timer.Trace.{init_tracer_provider}
use codewave_timer.TimerTask.{
  on_world, new_timer_task, start, add_startup_job, go, add_recurring_job,
}
use codewave_timer.UseCases.{
  MigratorUseCase, CronJobUseCase, SchedulerUseCase, new_job_repo, new_task_repo, new_transaction,
  new_redis_cache, new_migrator_use_case, new_cron_job_use_case, new_executor_use_case,
  new_codewave_timer_service,
}
use codewave_timer.Wiring.{Libraries, ServiceContext, new_service_context}
use codewave_timer.Main.{Web, Running, endpoints, main, serve}
use codewave_timer.Tests.Server.{World, empty, server}
use codewave_timer.Tests.Biz.{host, shanghai}
use codewave_timer.Tests.Fallback.{one_task}
use codewave_timer.Tests.Start
use codewave_timer.Tests.Handlers.{httpx, parse, parse_id, span_id}
use codewave_timer.Tests.Router.{find, find-IsRouter}
use codewave_timer.Handlers.{trace_middleware}
use codewave_timer.GoLib.Path.{clean}
use codewave_timer.Routes.{Server, register_handlers, method_post}
use codewave_timer.Routes.Dispatch.{chosen, register_handlers-dispatch}
use codewave_timer.Wiring.Started.{Wired, new_service_context-Wired}
use codewave_timer.Main.Serves.{HasStarted, main_serves}
use codewave_timer.Biz.Ports.{JobRepo, TimerTaskRepo, TaskCache}
use codewave_timer.Tests.Rounds.{minutely}

abbrev lib : Libraries World (Unit {0})
lib = record {
  sql = record {
    Db = Unit {0};
    Pool = Unit {0};
    open_db = λ d. pure tt;
    pool_of = λ d. pure tt;
    set_max_idle_conns = λ p n w. w;
    set_max_open_conns = λ p n w. w;
    set_conn_max_idle_time = λ p n w. w;
  };
  ants = record {
    Pool = ℤ;
    Task = Unit {0};
    new_pool = λ size d. pure size;
    submit = λ p t. pure tt;
  };
  otel = record {
    Exporter = Unit {0};
    TracerProvider = Bytes;
    Span = Unit {0};
    new_jaeger = λ url. pure tt;
    new_tracer_provider = λ e name w. (name, w);
    set_tracer_provider = λ tp w. w;
    start = λ name ctx span w. ((ctx, tt), w);
  };
  robfig = record {
    Cron = Unit {0};
    new_cron = λ s. (tt, s);
    start_cron = λ c s. s;
    stop_cron = λ c s. s;
    add_func = λ c schedule f. pure 1;
  };
  gorm_of = λ db. one_task;
  server_of = λ cache. server;
  new_client = λ o. true;
  ping = λ o s. ((codes "PONG", none), s);
  host = host;
  loc = shanghai;
  new_uuid = pure (codes "5f2c");
}

abbrev settings : GlobalConfig
settings = record {
  server_config = record {
    http = record { host = codes "127.0.0.1"; port = pos 9001; timeout = codes "1s" };
  };
  data_config = record {
    database = Start.conf;
    redis = record { addr = codes "127.0.0.1:6379"; password = []; db = pos 0; pool_size = pos 20 };
    scheduler = shipped.scheduler;
    trigger = shipped.trigger;
    migrator = shipped.migrator;
  };
}

abbrev viper : Viper World
viper = record { read_in_config = λ file. pure tt; unmarshal = λ w. (ok tt, λ g. settings) }

abbrev web : Web World
web = record {
  httpx = httpx;
  parse_create = parse;
  parse_timer = parse_id;
  marshal = λ p. inl (codes "{}");
  encode_message = λ m. m;
  new_trace = codes "t";
  span_id = span_id;
  new_token = λ w. (codes "5f2d", w);
}

abbrev start_state : Running lib minutely web viper
start_state = record {
  globals = record { global_config = settings; once_done = false };
  service = record {
    begun = [];
    exited = false;
    world = record {
      db_once = record { done = false; value = none };
      cache_once = record { done = false; value = none };
      redis_state = record { connected = false; held = 0; server = tt };
      outside = empty;
    };
  };
}

abbrev file : Bytes
file = codes "codewaveTimer/etc/codewavetimer-api.yaml"

abbrev jobs : JobRepo World
jobs = job_repo one_task

abbrev stored : TimerTaskRepo World
stored = task_repo one_task

abbrev cached : TaskCache World
cached = redis_cache server host shanghai 5

abbrev migrator : MigratorUseCase World
migrator = record {
  conf_data = shipped;
  timer_repo = jobs;
  task_repo = stored;
  task_cache = cached;
}

abbrev cron_jobs : CronJobUseCase World
cron_jobs = record {
  conf_data = shipped;
  timer_repo = jobs;
  task_repo = stored;
  task_cache = cached;
  tm = tx_manager one_task;
  muc = migrator;
}

abbrev scheduler : SchedulerUseCase World ℤ
scheduler = record {
  conf_data = shipped;
  timer_repo = jobs;
  task_repo = stored;
  task_cache = cached;
  pool = pos 100;
  trigger = record {
    conf_data = shipped;
    timer_repo = jobs;
    task_repo = stored;
    task_cache = cached;
    pool = pos 10000;
    slow_pool = pos 100;
    executor = record {
      conf_data = shipped;
      timer_repo = jobs;
      task_repo = stored;
      http_client = new_http_client [];
    };
  };
}

abbrev sc : ServiceContext lib
sc = record {
  config = settings;
  db = some tt;
  cache = some tt;
  job_repo = jobs;
  task_repo = stored;
  tx_manager = tx_manager one_task;
  task_cache = cached;
  cron_job_uc = cron_jobs;
  scheduler_uc = scheduler;
  migrator_uc = migrator;
  timer_task = tt;
  service = record { timer_uc = cron_jobs; scheduler_uc = scheduler; migrator_uc = migrator };
  tracer_provider = codes "codewave-timer";
}

begins :
    (main lib minutely web viper file start_state).0
    ≡ ok (sc, serve lib minutely web viper settings sc)
unfolding main new_service_context get_global_config on_world get_data_base new_database get_cache
    new_cache init new_redis_conn new_go_worker_pool init_tracer_provider new_timer_task start
    add_startup_job go add_recurring_job new_job_repo new_task_repo new_transaction new_redis_cache
    tx_manager new_codewave_timer_service new_migrator_use_case new_cron_job_use_case
    new_executor_use_case
begins = refl

main_serves_example :
    HasStarted lib minutely web viper find find-IsRouter start_state sc
      (serve lib minutely web viper settings sc)
      (main lib minutely web viper file start_state).1
main_serves_example =
    main_serves lib minutely web viper find find-IsRouter file start_state sc
      (serve lib minutely web viper settings sc) begins

new_service_context-Wired_example :
    Wired lib start_state.service (new_service_context lib settings start_state.service)
new_service_context-Wired_example = new_service_context-Wired lib settings start_state.service

abbrev new_server : Server World
new_server = record {
  host = codes "127.0.0.1";
  port = pos 9001;
  middlewares = trace_middleware span_id ∷ [];
  routes = [];
}

register_handlers-dispatch_example :
    find
      (register_handlers (endpoints lib minutely web viper sc) new_server).routes
      method_post
      (codes "/api//timer/enable/")
    ≡ chosen (endpoints lib minutely web viper sc) method_post (clean (codes "/api//timer/enable/"))
register_handlers-dispatch_example =
    register_handlers-dispatch (endpoints lib minutely web viper sc) find find-IsRouter new_server
      refl method_post (codes "/api//timer/enable/")
