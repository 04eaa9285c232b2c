-- ===== src/Main/Serves.antt =====
-- What the process serves, and what it runs beside: codewavetimer.go.
use codewave_timer.Base.{◌≡◌, refl, sym, subst, ap, ◌∙◌, List, [], ◌∷◌, Bytes, Option, ok}
use codewave_timer.Exec.{>>=-eq-ok}
use codewave_timer.Cron.{CronLibrary}
use codewave_timer.GoLib.Path.{clean}
use codewave_timer.Handlers.{Handler, trace_middleware}
use codewave_timer.Settings.{GlobalConfig, Viper, get_global_config}
use codewave_timer.Data.TaskCache.Members.{ok-inj}
use codewave_timer.Settings.Sticky.{get_global_config-ok}
use codewave_timer.Routes.{Route, Server, register_handlers, add_routes, use_middleware}
use codewave_timer.Routes.Dispatch.{IsRouter, chosen, register_handlers-dispatch}
use codewave_timer.Wiring.{Libraries, ServiceContext, new_service_context}
use codewave_timer.Wiring.Jobs.{BothJobs}
use codewave_timer.Wiring.Parts.{Fits}
use codewave_timer.Wiring.Started.{new_service_context-ok}
use codewave_timer.Main.{Web, Running, endpoints, on_globals, on_service, serve, main}

module _ {W S : Type 0} (lib : Libraries W S) (c : CronLibrary) (web : Web W) (viper : Viper W)
    (find : List (Route W) → Bytes → Bytes → Option (Handler W)) (router : IsRouter find) where
  -- Each request reaches the handler of its cleaned path over the methods of the service context, behind the
  -- one middleware.
  abbrev pub Serves : ServiceContext lib → Server W → Type 0
  Serves sc server =
      ((method path : Bytes)
        → find server.routes method path
          ≡ chosen (endpoints lib c web viper sc) method (clean path))
      × (server.middlewares ≡ trace_middleware web.span_id ∷ [])

  serve-Serves :
      (conf : GlobalConfig) (sc : ServiceContext lib) → Serves sc (serve lib c web viper conf sc)
  unfolding serve use_middleware register_handlers add_routes
  serve-Serves conf sc = (
    register_handlers-dispatch (endpoints lib c web viper sc) find router
        (use_middleware (trace_middleware web.span_id) (record {
          host = conf.server_config.http.host;
          port = conf.server_config.http.port;
          middlewares = [];
          routes = [];
        }))
        refl,
    refl,
  )

  -- The server has the address of the settings that have been read.
  abbrev pub Listens : Running lib c web viper → Server W → Type 0
  Listens v server =
      let http = v.globals.global_config.server_config.http in
      (server.host ≡ http.host) × (server.port ≡ http.port)

  abbrev pub HasStarted :
      Running lib c web viper → ServiceContext lib → Server W → Running lib c web viper → Type 0
  HasStarted v sc server v' =
      Serves sc server
      × Listens v' server
      × Fits lib sc
      × BothJobs lib sc.scheduler_uc sc.migrator_uc v.service v'.service

  -- A `main` that has come to its server has a service context whose parts fit together and a server
  -- at the address of the settings, has begun the scheduler, has handed the migrator to the cron
  -- library and begun nothing else; a router sends each of the requests to the handler of its cleaned
  -- path over the methods of this context, and any other request to none, behind the one middleware.
  pub main_serves :
      (file : Bytes) (v : Running lib c web viper) (sc : ServiceContext lib) (server : Server W)
      → (main lib c web viper file v).0 ≡ ok (sc, server)
      → HasStarted v sc server (main lib c web viper file v).1
  unfolding main on_service on_globals serve register_handlers add_routes use_middleware
  main_serves file v sc server h =
      let (conf, e1, h1, s1) =
        >>=-eq-ok (on_globals lib c web viper (get_global_config viper file)) _ v h in
      let read = get_global_config-ok viper file (v.globals, v.service.world.outside) conf e1 in
      let v1 = (on_globals lib c web viper (get_global_config viper file) v).1 in
      let (sc', e2, h2, s2) =
        >>=-eq-ok (on_service lib c web viper (new_service_context lib conf)) _ v1 h1 in
      let (fit, both) = new_service_context-ok lib conf v1.service sc' e2 in
      let last : (main lib c web viper file v).1
          ≡ (on_service lib c web viper (new_service_context lib conf) v1).1 =
        ap (λ p. p.1) (s1 ∙ s2) in
      subst
        (λ (x : ServiceContext lib × Server W).
          HasStarted v x.0 x.1 (main lib c web viper file v).1)
        (ok-inj h2)
        (subst (HasStarted v sc' (serve lib c web viper conf sc')) (sym last) (
          serve-Serves conf sc',
          (
            ap (λ (g : GlobalConfig). g.server_config.http.host) (sym read),
            ap (λ (g : GlobalConfig). g.server_config.http.port) (sym read),
          ),
          fit,
          record {
            trace_id = both.trace_id;
            cron = both.cron;
            entry = both.entry;
            before = both.before;
            begun = both.begun;
            goes_on = both.goes_on;
            recurring = both.recurring;
          },
        ))
