-- ===== src/Handlers.antt =====
-- The requests on their way in and out: internal/handler and internal/middleware/trace_middleware.go.
-- Writer is http.ResponseWriter of net/http; httpx of go-zero and the tracing library are parameters.
pub mod Late
use codewave_timer.Base.{
  List, Bytes, bytes_eq, codes, ◌⊎◌, inl, inr, ℤ, pos, Option, none, some, if◌then◌else◌, Error,
  ◌++◌,
}
use codewave_timer.Exec.{Exec, pure, attempt, ◌>>=◌}
use codewave_timer.Model.{CreateTimerRequest, Response}
use codewave_timer.Service.{TimerRequest, traced, logic}

abbrev pub Header : Type 0
Header = Bytes → Option Bytes

-- `sent` is the status line and the header as they went to the client.
pub record Writer : Type 0 where
  pub header : Header
  pub sent : Option (ℤ × Header)
  pub body : Bytes

abbrev pub put_header : Bytes → Bytes → Header → Header
put_header key value h k = if bytes_eq key k then some value else h k

-- w.Header().Set(key, value)
unfoldable pub set_header : Bytes → Bytes → Writer → Writer
set_header key value w = record w { header = put_header key value w.header }

-- w.WriteHeader(code): the header is sent once.
unfoldable pub send_header : ℤ → Writer → Writer
send_header code w = record w {
  sent = elim w.sent [ none ↦ some (code, w.header) | some s ↦ some s ];
}

-- w.Write(text)
unfoldable pub send_body : Bytes → Writer → Writer
unfolding send_header
send_body text w = let w' = send_header (pos 200) w in record w' { body = w'.body ++ text }

-- ResponseWriter of the middleware, and its methods.
pub record ResponseWriter : Type 0 where
  pub writer : Writer
  pub status_code : ℤ

abbrev pub new_response_writer : Writer → ResponseWriter
new_response_writer w = record { writer = w; status_code = pos 200 }

unfoldable pub write_header : ℤ → ResponseWriter → ResponseWriter
write_header code out = record { writer = send_header code out.writer; status_code = code }

unfoldable pub status_code_of : ResponseWriter → ℤ
status_code_of out = out.status_code

pub record Request : Type 0 where
  pub trace_header : Bytes  -- r.Header.Get("X-Trace-ID"), empty if there is none
  pub path : Bytes
  pub body : Bytes
  pub trace_id : Option Bytes  -- that of the context

abbrev pub x_trace_id : Bytes
x_trace_id = codes "X-Trace-ID"

abbrev pub Handler : Type 0 → Type 0
Handler W = Request → ResponseWriter → Exec W ResponseWriter

-- TraceMiddleware; `span_id` is the trace of the span that starts under a trace.
unfoldable pub trace_middleware :
    {W : Type 0} → (Bytes → Bytes) → Handler W → Request → Writer → Exec W ResponseWriter
trace_middleware span_id next r w =
    next (record r { trace_id = some r.trace_header }) (new_response_writer w) >>= λ out.
    pure (record out { writer = set_header x_trace_id (span_id r.trace_header) out.writer })

-- httpx.OkJsonCtx and httpx.ErrorCtx.
pub record Httpx : Type 0 where
  pub ok_json : Response → ResponseWriter → ResponseWriter
  pub error_ctx : Error → ResponseWriter → ResponseWriter

-- The end of a handler.
unfoldable pub answer : Httpx → ResponseWriter → Response ⊎ Error → ResponseWriter
answer x out (inl resp) = x.ok_json resp out
answer x out (inr e) = x.error_ctx e out

module _ {W : Type 0} (x : Httpx) where
  unfoldable pub parsed_or_not :
      {Req : Type 0}
      → (Req → Exec W Response)
      → ResponseWriter
      → Req ⊎ Error
      → Exec W ResponseWriter
  parsed_or_not run out (inr e) = pure (x.error_ctx e out)
  parsed_or_not run out (inl req) = attempt (run req) >>= λ o. pure (answer x out o)

  -- createTimerHandler; `parse` is httpx.Parse, `new_trace` the trace of the logic's own span.
  unfoldable pub create_timer_handler :
      (Request → CreateTimerRequest ⊎ Error)
      → Bytes
      → (CreateTimerRequest → Exec W Response)
      → Handler W
  unfolding parsed_or_not
  create_timer_handler parse new_trace create r out =
      parsed_or_not (λ req. traced new_trace (create req)) out (parse r)

  unfoldable pub enable_timer_handler :
      (Request → TimerRequest ⊎ Error) → (TimerRequest → Exec W Response) → Handler W
  unfolding parsed_or_not
  enable_timer_handler parse enable r out = parsed_or_not (logic r.trace_id enable) out (parse r)

  unfoldable pub disable_timer_handler :
      (Request → TimerRequest ⊎ Error) → (TimerRequest → Exec W Response) → Handler W
  unfolding parsed_or_not
  disable_timer_handler parse disable r out = parsed_or_not (logic r.trace_id disable) out (parse r)
