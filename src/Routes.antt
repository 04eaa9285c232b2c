-- ===== src/Routes.antt =====
-- The table of routes and the process: internal/handler/routes.go and codewavetimer.go. The rest server
-- of go-zero, its router and encoding/json are parameters.
pub mod Dispatch
use codewave_timer.Base.{List, [], ◌∷◌, ◌++◌, Bytes, codes, Option, ◌⊎◌, Error, ℤ}
use codewave_timer.Exec.{Exec, pure, ◌>>=◌, ◌>>◌}
use codewave_timer.Model.{CreateTimerRequest, Response}
use codewave_timer.Service.{TimerRequest}
use codewave_timer.Handlers.{
  Handler, Request, Writer, ResponseWriter, Httpx, set_header, send_body, trace_middleware,
  create_timer_handler, enable_timer_handler, disable_timer_handler,
}

pub record Route (W : Type 0) : Type 0 where
  pub method : Bytes
  pub path : Bytes
  pub handler : Handler W

-- What a rest server has been given: its address, its middlewares and its routes, in their order.
pub record Server (W : Type 0) : Type 0 where
  pub host : Bytes
  pub port : ℤ
  pub middlewares : List (Handler W → Request → Writer → Exec W ResponseWriter)
  pub routes : List (Route W)

-- server.AddRoutes and server.Use
unfoldable pub add_routes : {W : Type 0} → List (Route W) → Server W → Server W
add_routes rs server = record server { routes = server.routes ++ rs }

unfoldable pub use_middleware :
    {W : Type 0} → (Handler W → Request → Writer → Exec W ResponseWriter) → Server W → Server W
use_middleware m server = record server { middlewares = server.middlewares ++ m ∷ [] }

abbrev pub method_post : Bytes
method_post = codes "POST"

-- What the three handlers need: httpx, its Parse, the trace of a new span, and the service.
pub record Endpoints (W : Type 0) : Type 0 where
  pub httpx : Httpx
  pub parse_create : Request → CreateTimerRequest ⊎ Error
  pub parse_timer : Request → TimerRequest ⊎ Error
  pub new_trace : Bytes
  pub create : CreateTimerRequest → Exec W Response
  pub enable : TimerRequest → Exec W Response
  pub disable : TimerRequest → Exec W Response
  pub encode_message : Bytes → Bytes  -- json.NewEncoder(w).Encode of a map with one message

module _ {W : Type 0} (x : Endpoints W) where
  -- The function of the last route.
  unfoldable pub callback_handler : Handler W
  callback_handler r out = pure (record out {
    writer =
        send_body (x.encode_message (codes "hello world"))
          (set_header (codes "Content-Type") (codes "application/json") out.writer);
  })

  unfoldable pub create_route : Route W
  create_route = record {
    method = method_post;
    path = codes "/api/timer/create";
    handler = create_timer_handler x.httpx x.parse_create x.new_trace x.create;
  }

  unfoldable pub enable_route : Route W
  enable_route = record {
    method = method_post;
    path = codes "/api/timer/enable";
    handler = enable_timer_handler x.httpx x.parse_timer x.enable;
  }

  unfoldable pub disable_route : Route W
  disable_route = record {
    method = method_post;
    path = codes "/api/timer/disable";
    handler = disable_timer_handler x.httpx x.parse_timer x.disable;
  }

  unfoldable pub callback_route : Route W
  callback_route = record {
    method = method_post;
    path = codes "/codewavetimer/callback";
    handler = callback_handler;
  }

  -- RegisterHandlers
  unfoldable pub register_handlers : Server W → Server W
  unfolding add_routes create_route enable_route disable_route callback_route
  register_handlers server = add_routes (callback_route ∷ []) (
      add_routes (disable_route ∷ [])
        (add_routes (enable_route ∷ []) (add_routes (create_route ∷ []) server)))
