-- ===== src/Biz/CronJob.antt =====
-- Creating, enabling and disabling timers: internal/biz/cron_job_biz.go.
pub mod Enable
use codewave_timer.Base.{
  ℕ, List, [], ◌∷◌, Bytes, ◌⊎◌, inl, inr, ℤ, pos, eqb_ℤ, if◌then◌else◌, Option, none, some, Result,
  ok, panic, Error, wrong_status,
}
use codewave_timer.Exec.{Exec, pure, raise, lift, attempt, deferred, ◌>>=◌, ◌>>◌}
use codewave_timer.Config.{Config}
use codewave_timer.Redis.{RedisServer}
use codewave_timer.Lock.Options.{
  RedisLock, new_redis_lock, with_expire_seconds, with_watch_dog_mode,
}
use codewave_timer.Lock.Client.{unlock}
use codewave_timer.Lock.Blocking.{Tick, lock}
use codewave_timer.Keys.{get_enable_lock_key}
use codewave_timer.Model.{JobTimer, timer_to_int, unabled, enabled}
use codewave_timer.Biz.Ports.{Context, JobRepo, Transaction}

abbrev pub default_enable_gap_seconds : ℤ
default_enable_gap_seconds = pos 3

module _ {W : Type 0} (s : RedisServer W) (jobs : JobRepo W) (tm : Transaction W)
    (migrate : Context → JobTimer → Exec W (Unit {0})) where
  unfoldable pub create_timer : Context → JobTimer → Exec W JobTimer
  create_timer ctx g = jobs.save ctx g

  unfoldable pub enable_unabled : Context → JobTimer → Exec W (Unit {0})
  enable_unabled ctx timer = do
    let timer' = record timer { status = timer_to_int enabled }
    jobs.update ctx timer'
    migrate ctx timer'

  -- The function that EnableTimer runs in a transaction.
  unfoldable pub enable_in_tx : ℤ → Context → Exec W (Unit {0})
  unfolding enable_unabled
  enable_in_tx timer_id ctx = do
    timer ← jobs.find_by_id ctx timer_id
    if eqb_ℤ timer.status (timer_to_int unabled)
        then enable_unabled ctx timer
        else raise wrong_status

  unfoldable pub enable_locker : Bytes → Bytes → RedisLock
  enable_locker app token =
      new_redis_lock (get_enable_lock_key app) token
        (with_expire_seconds default_enable_gap_seconds ∷ with_watch_dog_mode ∷ [])

  pub enable_locked : Context → ℤ → RedisLock ⊎ Error → Exec W (Unit {0})
  enable_locked ctx timer_id (inr e) = pure tt
  enable_locked ctx timer_id (inl r) = tm.in_tx ctx (enable_in_tx timer_id)

  -- The lock that the deferred Unlock works on has the watchdog if Lock has started one.
  pub locker_after : RedisLock → RedisLock ⊎ Error → RedisLock
  locker_after r (inl r') = r'
  locker_after r (inr e) = r

  -- EnableTimer, with the UUID of its lock. The deferred Unlock runs whether or not Lock succeeded,
  -- and its error is only logged.
  unfoldable pub enable_timer : Bytes → Context → Bytes → ℤ → Exec W (Unit {0})
  unfolding enable_locker enable_locked locker_after enable_in_tx
  enable_timer token ctx app timer_id = do
    let locker = enable_locker app token
    o ← attempt (lock s locker [])
    deferred (unlock s (locker_after locker o) >>= λ r. pure tt) (enable_locked ctx timer_id o)

  -- A timer that is not found is a nil pointer, whose field is assigned.
  pub disable_found : Context → JobTimer ⊎ Error → Exec W (Unit {0})
  disable_found ctx (inr e) = lift panic
  disable_found ctx (inl timer) = do
    jobs.update ctx (record timer { status = timer_to_int unabled })
    pure tt

  unfoldable pub disable_timer : Context → Bytes → ℤ → Exec W (Unit {0})
  unfolding disable_found
  disable_timer ctx app timer_id = do
    found ← attempt (jobs.find_by_id ctx timer_id)
    disable_found ctx found
