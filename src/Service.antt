-- ===== src/Service.antt =====
-- The answers to the three requests: internal/service/service.go, and internal/logic over it. The
-- use cases of internal/biz, json.Marshal and the tracing library are parameters.
pub mod Answers
use codewave_timer.Base.{
  Bool, List, [], Bytes, codes, ◌⊎◌, inl, inr, ℤ, pos, Option, none, some, Error, service_failed,
  disable_failed,
}
use codewave_timer.GoLib.Decimal.{format_int}
use codewave_timer.Exec.{Exec, pure, raise, attempt, ◌>>=◌}
use codewave_timer.Model.{
  JobTimer, CreateTimerRequest, NotifyHttpParam, Response, timer_to_int, unabled,
}

-- EnableTimerRequest and DisableTimerRequest.
pub record TimerRequest : Type 0 where
  pub app : Bytes
  pub timer_id : ℤ

abbrev pub answer_ok : ℤ → Response
answer_ok timer_id = record {
  code = pos 0;
  message = codes "ok";
  payload = format_int timer_id;
  trace_id = [];
}

-- The timer of a request, whose own status is not read. The database gives it its number and times.
abbrev pub requested : CreateTimerRequest → Bytes → JobTimer
requested req param = record {
  timer_id = pos 0;
  app = req.app;
  name = req.name;
  status = timer_to_int unabled;
  cron = req.cron;
  notify_http_param = param;
  create_time = none;
  modify_time = none;
}

unfoldable pub trace_id_of : Option Bytes → Bytes
trace_id_of none = codes "new-trace-id"
trace_id_of (some trace_id) = trace_id

module _ {W : Type 0} where
  pub created : JobTimer ⊎ Error → Exec W Response
  created (inl timer) = pure (answer_ok timer.timer_id)
  created (inr e) = raise (service_failed e)

  pub marshalled :
      (JobTimer → Exec W JobTimer) → CreateTimerRequest → Bytes ⊎ Error → Exec W Response
  unfolding created
  marshalled create req (inr e) = raise e
  marshalled create req (inl param) = attempt (create (requested req param)) >>= created

  unfoldable pub create_timer :
      (NotifyHttpParam → Bytes ⊎ Error)
      → (JobTimer → Exec W JobTimer)
      → CreateTimerRequest
      → Exec W Response
  unfolding marshalled
  create_timer marshal create req = marshalled create req (marshal req.notify_http_param)

  enabled_or_not : ℤ → Unit {0} ⊎ Error → Exec W Response
  enabled_or_not timer_id (inl u) = pure (answer_ok timer_id)
  enabled_or_not timer_id (inr e) = raise (service_failed e)

  unfoldable pub enable_timer : (Bytes → ℤ → Exec W (Unit {0})) → TimerRequest → Exec W Response
  unfolding enabled_or_not
  enable_timer enable req = attempt (enable req.app req.timer_id) >>= enabled_or_not req.timer_id

  disabled_or_not : ℤ → Unit {0} ⊎ Error → Exec W Response
  disabled_or_not timer_id (inl u) = pure (answer_ok timer_id)
  disabled_or_not timer_id (inr e) = raise disable_failed

  unfoldable pub disable_timer : (Bytes → ℤ → Exec W (Unit {0})) → TimerRequest → Exec W Response
  unfolding disabled_or_not
  disable_timer disable req =
      attempt (disable req.app req.timer_id) >>= disabled_or_not req.timer_id

  -- The logic of a request: the trace's number is written into the answer. For CreateTimer it is the
  -- span's own; for the other two it is the context's, if it has one.
  unfoldable pub traced : Bytes → Exec W Response → Exec W Response
  traced trace_id answer = answer >>= λ resp. pure (record resp { trace_id = trace_id })

  unfoldable pub logic :
      Option Bytes → (TimerRequest → Exec W Response) → TimerRequest → Exec W Response
  unfolding traced trace_id_of
  logic from_context service req = traced (trace_id_of from_context) (service req)
