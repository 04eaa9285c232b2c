-- ===== src/Service/Answers.antt =====
-- What the answers of internal/service/service.go say.
use codewave_timer.Base.{
  ◌≡◌, ◌≢◌, refl, sym, ap, ◌∙◌, arith, ◌⊎◌, inl, inr, Bytes, IsInt64, Option, none, some, Result,
  ok, err, panic, spin, Error,
}
use codewave_timer.GoLib.Decimal.{parse_int}
use codewave_timer.GoLib.Decimal.RoundTrip.{parse_int-format_int}
use codewave_timer.Exec.{Exec, attempt, ◌>>=◌}
use codewave_timer.Redis.{RedisServer, IsRedis}
use codewave_timer.Keys.{get_enable_lock_key}
use codewave_timer.Model.{JobTimer, CreateTimerRequest, NotifyHttpParam, Response}
use codewave_timer.Biz.Ports.{Context, JobRepo, Transaction}
use codewave_timer.Biz.CronJob
use codewave_timer.Biz.CronJob.Enable.{enable_timer_held}
use codewave_timer.Service.{
  TimerRequest, answer_ok, requested, created, marshalled, create_timer, enable_timer, trace_id_of,
  traced, logic,
}

module _ {W : Type 0} where
  created-pair :
      (p : Result JobTimer × W) {resp : Response}
      → ((attempt (λ (w : W). p) >>= created) p.1).0 ≡ ok resp
      → (timer : JobTimer) × (p.0 ≡ ok timer)
        × (resp ≡ answer_ok timer.timer_id)
        × (((attempt (λ (w : W). p) >>= created) p.1).1 ≡ p.1)
  unfolding created
  created-pair (ok timer, w) h = (timer, refl, cc, refl)
  created-pair (err e, w) h = absurd (ground arith)
  created-pair (panic, w) h = absurd (ground arith)
  created-pair (spin, w) h = absurd (ground arith)

  marshalled-ok :
      (create : JobTimer → Exec W JobTimer) (req : CreateTimerRequest) (m : Bytes ⊎ Error) (w : W)
      {resp : Response}
      → (marshalled create req m w).0 ≡ ok resp
      → (param : Bytes) × (timer : JobTimer) × (m ≡ inl param)
        × (create (requested req param) w ≡ (ok timer, (marshalled create req m w).1))
        × (IsInt64 timer.timer_id → parse_int resp.payload ≡ (timer.timer_id, none))
  unfolding marshalled
  marshalled-ok create req (inr e) w h = absurd (ground arith)
  marshalled-ok create req (inl param) w h =
      let (timer, saved, e, same) = created-pair (create (requested req param) w) h in
      (
        param,
        timer,
        refl,
        λ i. (saved i, sym same i),
        λ fits. ap (λ r. parse_int r.payload) e ∙ parse_int-format_int timer.timer_id fits,
      )

  -- CreateTimer without an error: a timer that is not enabled, whatever the request says, has been
  -- saved with the request's app, name, cron expression and callback, and the answer's data is read
  -- back as the number that the timer was saved under, if that is an int64.
  pub create_timer_answers :
      (marshal : NotifyHttpParam → Bytes ⊎ Error) (create : JobTimer → Exec W JobTimer)
      (req : CreateTimerRequest) (w : W) {resp : Response}
      → (create_timer marshal create req w).0 ≡ ok resp
      → (param : Bytes) × (timer : JobTimer) × (marshal req.notify_http_param ≡ inl param)
        × (create (requested req param) w ≡ (ok timer, (create_timer marshal create req w).1))
        × (IsInt64 timer.timer_id → parse_int resp.payload ≡ (timer.timer_id, none))
  unfolding create_timer
  create_timer_answers marshal create req w h =
      marshalled-ok create req (marshal req.notify_http_param) w h

module _ {W : Type 0} (s : RedisServer W) (jobs : JobRepo W) (tm : Transaction W)
    (migrate : Context → JobTimer → Exec W (Unit {0})) where
  -- While another client holds the lock of the app, the request to enable a timer changes nothing,
  -- and is answered like one that has enabled it, with the trace's number.
  pub enable_timer_answers_held :
      (redis : IsRedis s) (token : Bytes) (ctx : Context) (trace : Option Bytes)
      (req : TimerRequest) (w : W) (u : Bytes)
      → s.get (get_enable_lock_key req.app) w ≡ some u
      → u ≢ token
      → logic trace (enable_timer (CronJob.enable_timer s jobs tm migrate token ctx)) req w
        ≡ (ok (record (answer_ok req.timer_id) { trace_id = trace_id_of trace }), w)
  unfolding logic traced enable_timer
  enable_timer_answers_held redis token ctx trace req w u taken other =
      rw (enable_timer_held s jobs tm migrate redis token ctx req.app req.timer_id w u taken other)
        refl
