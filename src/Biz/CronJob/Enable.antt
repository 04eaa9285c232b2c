-- ===== src/Biz/CronJob/Enable.antt =====
-- What EnableTimer and DisableTimer of internal/biz/cron_job_biz.go leave behind.
use codewave_timer.Base.{
  ◌≡◌, ◌≢◌, refl, sym, ap, ◌∙◌, arith, inl, inr, false, Bool-cases, some, Bytes, ℤ, eqb_ℤ, eqb_ℤ→eq,
  if◌then◌else◌, ok, err, panic, Error, wrong_status,
}
use codewave_timer.Exec.{Exec, raise, >>=-eq-ok}
use codewave_timer.Redis.{RedisServer, IsRedis}
use codewave_timer.Lock.Options.{
  RedisLock, new_redis_lock, with_expire_seconds, with_watch_dog_mode, apply_all, repair_lock,
}
use codewave_timer.Lock.Client.{unlock}
use codewave_timer.Lock.Owner.{lock_fails}
use codewave_timer.Lock.Release.{unlock_foreign}
use codewave_timer.Keys.{get_enable_lock_key}
use codewave_timer.Model.{JobTimer, timer_to_int, unabled, enabled}
use codewave_timer.Biz.Ports.{Context, JobRepo, Transaction}
use codewave_timer.Biz.CronJob.{
  enable_unabled, enable_locked, locker_after, disable_found, enable_in_tx, enable_locker,
  enable_timer, disable_timer,
}

module _ {W : Type 0} (s : RedisServer W) (jobs : JobRepo W) (tm : Transaction W)
    (migrate : Context → JobTimer → Exec W (Unit {0})) where
  enable_unabled-ok :
      (ctx : Context) (timer : JobTimer) (w : W)
      → (enable_unabled s jobs tm migrate ctx timer w).0 ≡ ok tt
      → (saved : JobTimer) × ((jobs.update ctx (record timer { status = timer_to_int enabled }) w).0
          ≡ ok saved)
        × (enable_unabled s jobs tm migrate ctx timer w
            ≡ migrate ctx
                (record timer { status = timer_to_int enabled })
                (jobs.update ctx (record timer { status = timer_to_int enabled }) w).1)
  unfolding enable_unabled
  enable_unabled-ok ctx timer w h =
      let (saved, e, _, same) =
        >>=-eq-ok (jobs.update ctx (record timer { status = timer_to_int enabled })) _ w h in
      (saved, e, same)

  -- The guard on the status.
  guard-ok :
      (timer : JobTimer) (go : Exec W (Unit {0})) (w : W)
      → ((if eqb_ℤ timer.status (timer_to_int unabled) then go else raise wrong_status) w).0 ≡ ok tt
      → (timer.status ≡ timer_to_int unabled)
        × ((if eqb_ℤ timer.status (timer_to_int unabled) then go else raise wrong_status) w ≡ go w)
  guard-ok timer go w h = elim (Bool-cases (eqb_ℤ timer.status (timer_to_int unabled))) [
    | inl same ↦ (eqb_ℤ→eq timer.status (timer_to_int unabled) same, rw same refl)
    | inr other ↦ absurd (ground arith)
  ]

  -- A timer is enabled only if it was found, was not enabled before, and its update and its migration
  -- succeeded, in this order; the world is the one that the migration leaves.
  pub enable_in_tx-ok :
      (id : ℤ) (ctx : Context) (w : W)
      → (enable_in_tx s jobs tm migrate id ctx w).0 ≡ ok tt
      → (timer saved : JobTimer) × ((jobs.find_by_id ctx id w).0 ≡ ok timer)
        × (timer.status ≡ timer_to_int unabled)
        × ((jobs.update ctx
              (record timer { status = timer_to_int enabled })
              (jobs.find_by_id ctx id w).1).0
            ≡ ok saved)
        × (enable_in_tx s jobs tm migrate id ctx w
            ≡ migrate ctx
                (record timer { status = timer_to_int enabled })
                (jobs.update ctx
                  (record timer { status = timer_to_int enabled })
                  (jobs.find_by_id ctx id w).1).1)
  unfolding enable_in_tx
  enable_in_tx-ok id ctx w h =
      let (timer, found, h1, e) = >>=-eq-ok (jobs.find_by_id ctx id) _ w h in
      let w1 : W = (jobs.find_by_id ctx id w).1 in
      let (same, e1) = guard-ok timer (enable_unabled s jobs tm migrate ctx timer) w1 h1 in
      let (saved, e2, e3) = enable_unabled-ok ctx timer w1 (sym (ap (λ p. p.0) e1) ∙ h1) in
      (timer, saved, found, same, e2, e ∙ e1 ∙ e3)

  not_blocking : (app token : Bytes) → (enable_locker s jobs tm migrate app token).is_block ≡ false
  unfolding enable_locker new_redis_lock apply_all repair_lock with_expire_seconds
      with_watch_dog_mode
  not_blocking app token = refl

  -- While another client holds the lock of the app, EnableTimer changes nothing and reports no error:
  -- the timer stays as it is, and its caller is told that it is enabled.
  pub enable_timer_held :
      (redis : IsRedis s) (token : Bytes) (ctx : Context) (app : Bytes) (id : ℤ) (w : W) (u : Bytes)
      → s.get (get_enable_lock_key app) w ≡ some u
      → u ≢ token
      → enable_timer s jobs tm migrate token ctx app id w ≡ (ok tt, w)
  unfolding enable_timer enable_locker enable_locked locker_after new_redis_lock
  enable_timer_held redis token ctx app id w u taken other =
      let r : RedisLock = enable_locker s jobs tm migrate app token in
      let (e, refused) = lock_fails s redis r w u (not_blocking app token) taken in
      let (same, (x, r', told)) = unlock_foreign s redis r w (λ e. other (cc (e, taken))) in
      let o : unlock s r w ≡ (ok (some x, r'), w) = λ i. (told i, same i) in rw (refused, o) refl

  -- DisableTimer of a number that is not found, or that cannot be read, panics.
  pub disable_timer_missing :
      (ctx : Context) (app : Bytes) (id : ℤ) (w w' : W) (e : Error)
      → jobs.find_by_id ctx id w ≡ (err e, w')
      → disable_timer s jobs tm migrate ctx app id w ≡ (panic, w')
  unfolding disable_timer disable_found
  disable_timer_missing ctx app id w w' e missing = rw missing refl
