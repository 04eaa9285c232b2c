-- ===== src/Tests/Handlers.antt =====
-- A request to each handler, behind the middleware.
use codewave_timer.Base.{refl, Bytes, codes, ◌⊎◌, inl, inr, pos, none, [], ◌∷◌, Error, foreign}
use codewave_timer.Exec.{Exec, pure, raise}
use codewave_timer.Model.{Response, CreateTimerRequest}
use codewave_timer.Service.{TimerRequest, answer_ok}
use codewave_timer.Handlers.{
  put_header, Writer, ResponseWriter, Request, Httpx, set_header, send_header, send_body,
  write_header, trace_middleware, enable_timer_handler, disable_timer_handler, create_timer_handler,
}
use codewave_timer.Handlers.Late.{IsHttpx, SendsUntraced, trace_too_late}

abbrev pub json : ResponseWriter → ResponseWriter
json out = record out {
  writer = set_header (codes "Content-Type") (codes "application/json") out.writer;
}

abbrev pub said : Bytes → ResponseWriter → ResponseWriter
said text out = record out { writer = send_body text out.writer }

abbrev pub httpx : Httpx
httpx = record {
  ok_json = λ resp out. said resp.trace_id (write_header (pos 200) (json out));
  error_ctx = λ e out. said (codes "failed") (write_header (pos 400) out);
}

httpx-IsHttpx : IsHttpx httpx
unfolding send_body send_header set_header write_header
httpx-IsHttpx = record {
  ok_sends = λ resp out h k. (
    pos 200,
    put_header (codes "Content-Type") (codes "application/json") out.writer.header,
    rw h,
    k,
  );
  error_sends = λ e out h k. (pos 400, out.writer.header, rw h, k);
}

abbrev asked : Request
asked = record {
  trace_header = codes "abc";
  path = codes "/api/timer/enable";
  body = [];
  trace_id = none;
}

abbrev unsent : Writer
unsent = record { header = λ k. none; sent = none; body = [] }

abbrev enables : TimerRequest → Exec Unit Response
enables req = pure (answer_ok req.timer_id)

abbrev refuses : TimerRequest → Exec Unit Response
refuses req = raise (foreign 3)

abbrev creates : CreateTimerRequest → Exec Unit Response
creates req = pure (answer_ok (pos 7))

abbrev pub parse_id : Request → TimerRequest ⊎ Error
parse_id r = inl (record { app = codes "shop"; timer_id = pos 7 })

abbrev pub parse : Request → CreateTimerRequest ⊎ Error
parse r = inr (foreign 4)

abbrev pub span_id : Bytes → Bytes
span_id id = 120 ∷ id

trace_too_late_example :
    SendsUntraced
      (codes "xabc")
      (trace_middleware span_id (create_timer_handler httpx parse [] creates) asked unsent tt).0
    × SendsUntraced
        (codes "xabc")
        (trace_middleware span_id (enable_timer_handler httpx parse_id enables) asked unsent tt).0
    × SendsUntraced
        (codes "xabc")
        (trace_middleware span_id (disable_timer_handler httpx parse_id refuses) asked unsent tt).0
trace_too_late_example =
    trace_too_late httpx httpx-IsHttpx span_id parse parse_id [] creates enables refuses asked
      unsent tt (refl, refl) (λ req v. tt) (λ req v. tt) (λ req v. tt)
