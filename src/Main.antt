-- ===== src/Main.antt =====
-- The process: codewavetimer.go, with the methods that the handlers of its routes call. The rest server
-- of go-zero is a parameter.
pub mod Serves
use codewave_timer.Base.{[], false, Bytes, ◌⊎◌, Error, Result}
use codewave_timer.Exec.{Exec, pure, ◌>>=◌}
use codewave_timer.Cron.{CronLibrary}
use codewave_timer.Model.{JobTimer, CreateTimerRequest, NotifyHttpParam, Response}
use codewave_timer.Biz.Ports.{Context}
use codewave_timer.Biz.Migrator.{migrator_timer}
use codewave_timer.Biz.CronJob
use codewave_timer.Service
use codewave_timer.Service.{TimerRequest}
use codewave_timer.Handlers.{Httpx, Request, trace_middleware}
use codewave_timer.Settings.{GlobalConfig, Viper, Globals, get_global_config}
use codewave_timer.TimerTask.{Process, on_world}
use codewave_timer.UseCases.{CronJobUseCase, MigratorUseCase}
use codewave_timer.Routes.{Server, Endpoints, register_handlers, use_middleware}
use codewave_timer.Wiring.{
  Job, State, Libraries, Started, ServiceContext, on_outside, new_service_context,
}

-- What the handlers use of other libraries: go-zero's httpx, encoding/json, the tracing library, and
-- the UUID of a lock.
pub record Web (W : Type 0) : Type 0 where
  pub httpx : Httpx
  pub parse_create : Request → CreateTimerRequest ⊎ Error
  pub parse_timer : Request → TimerRequest ⊎ Error
  pub marshal : NotifyHttpParam → Bytes ⊎ Error
  pub encode_message : Bytes → Bytes
  pub new_trace : Bytes
  pub span_id : Bytes → Bytes
  pub new_token : W → Bytes × W

-- The settings beside the rest of the state.
pub record MainState (P : Type 0) : Type 0 where
  pub globals : Globals
  pub service : P

module _ {W S : Type 0} (lib : Libraries W S) (c : CronLibrary) (web : Web W)
    (viper : Viper W) where
  open lib use {sql, ants, host, server_of}

  abbrev no_tx : Context
  no_tx = record { has_tx = false }

  -- MigratorTimer of the migrator.
  unfoldable pub migrate_by : MigratorUseCase W → Context → JobTimer → Exec W (Unit {0})
  migrate_by muc = migrator_timer c muc.conf_data host muc.timer_repo muc.task_repo muc.task_cache

  -- The methods of the service of a context, for the handlers.
  unfoldable pub endpoints : ServiceContext lib → Endpoints W
  unfolding migrate_by
  endpoints sc =
      let uc = sc.service.timer_uc in
      let s = server_of sc.cache in
      let migrate = migrate_by uc.muc in
      record {
        httpx = web.httpx;
        parse_create = web.parse_create;
        parse_timer = web.parse_timer;
        new_trace = web.new_trace;
        create =
            Service.create_timer web.marshal
              (CronJob.create_timer s uc.timer_repo uc.tm migrate no_tx);
        enable = Service.enable_timer (λ app timer_id w.
            let (token, w') = web.new_token w in
            CronJob.enable_timer s uc.timer_repo uc.tm migrate token no_tx app timer_id w');
        disable = Service.disable_timer (CronJob.disable_timer s uc.timer_repo uc.tm migrate no_tx);
        encode_message = web.encode_message;
      }

  abbrev pub Running : Type 0
  Running = MainState (Process (Job W ants.Pool) (State W sql.Db S))

  -- Code that sees the settings and the world outside, and code that does not see the settings.
  pub on_globals : {A : Type 0} → Exec (Globals × W) A → Exec Running A
  on_globals m v =
      let (r, (g, w)) = m (v.globals, v.service.world.outside) in
      (
        r,
        record {
          globals = g;
          service = record v.service { world = record v.service.world { outside = w } };
        },
      )

  pub on_service : {A : Type 0} → Started lib A → Exec Running A
  on_service m v = let (r, p) = m v.service in (r, record v { service = p })

  -- The server that `main` sets up for a service context. rest.MustNewServer gives an empty one.
  unfoldable pub serve : GlobalConfig → ServiceContext lib → Server W
  unfolding endpoints
  serve conf sc = register_handlers (endpoints sc) (
      use_middleware (trace_middleware web.span_id) (record {
        host = conf.server_config.http.host;
        port = conf.server_config.http.port;
        middlewares = [];
        routes = [];
      }))

  -- main, until its server has been started.
  unfoldable pub main : Bytes → Exec Running (ServiceContext lib × Server W)
  unfolding serve on_globals on_service
  main config_file = do
    conf ← on_globals (get_global_config viper config_file)
    sc ← on_service (new_service_context lib conf)
    pure (sc, serve conf sc)
