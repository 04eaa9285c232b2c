-- ===== src/Biz/Scheduler.antt =====
-- The scheduler, which hands the slices of this minute and the last one to the trigger:
-- internal/biz/scheduler.go. The pool of workers and the trigger are parameters.
pub mod Submitted
pub mod Once
use codewave_timer.Base.{
  ℕ, zero, suc, ◌+◌, ◌-◌, ◌*◌, List, [], ◌∷◌, ◌++◌, Bytes, ◌⊎◌, inl, inr, ℤ, pos, Result, ok, err,
  Error, spin, panic, ◌==◌, nil_context, Option, none, some, Bool, true, false, if◌then◌else◌,
}
use codewave_timer.GoLib.Clock.{Time, Location, minute}
use codewave_timer.Exec.{Exec, pure, raise, lift, attempt, recovered, ◌>>=◌, ◌>>◌}
use codewave_timer.Config.{Config}
use codewave_timer.Redis.{RedisServer}
use codewave_timer.Lock.Options.{RedisLock, new_redis_lock, with_expire_seconds}
use codewave_timer.Lock.Client.{delay_expire}
use codewave_timer.Lock.Blocking.{lock}
use codewave_timer.Keys.{get_time_bucket_lock_key, get_slice_msg_key}
use codewave_timer.Biz.Ports.{Context, Host}

-- What a submitted function does: asyncHandleSlice for a time and a bucket.
pub record Slice : Type 0 where
  pub at : Time
  pub bucket_id : ℤ

module _ {W : Type 0} (host : Host W) (submit : Slice → Exec W (Unit {0})) where
  -- An error of the pool is logged and dropped.
  pub submit_or_log : Slice → Exec W (Unit {0})
  submit_or_log slice = attempt (submit slice) >>= λ o. pure tt

  -- handleSlice: the minute before is taken once more, then the present one.
  unfoldable pub handle_slice : ℤ → Exec W (Unit {0})
  unfolding submit_or_log
  handle_slice bucket_id = recovered do
    now ← host.now
    submit_or_log (record { at = now - minute; bucket_id = bucket_id })
    submit_or_log (record { at = now; bucket_id = bucket_id })

  -- The loop of handleSlices, from bucket `i` on, with the buckets that are left.
  pub handle_from : ℕ → ℕ → Exec W (Unit {0})
  handle_from i zero = pure tt
  handle_from i (suc left) = do handle_slice (pos i); handle_from (suc i) left

  unfoldable pub handle_slices : Config → Exec W (Unit {0})
  unfolding handle_from handle_slice
  handle_slices conf = handle_from 0 conf.scheduler.buckets_num

  -- The loop of Work over the ticks of its ticker: whether the context is done at each.
  on_ticks : Config → List Bool → Exec W (Unit {0})
  unfolding handle_slices
  on_ticks conf [] = lift spin
  on_ticks conf (done ∷ ticks) =
      let go_on = handle_slices conf >>= λ u. on_ticks conf ticks in if done then pure tt else go_on

  -- Work, for a context that is nil or not. NewTicker panics for a period of 0.
  unfoldable pub work : Config → Bool → List Bool → Exec W (Unit {0})
  unfolding on_ticks
  work conf nil ticks =
      if nil
      then raise nil_context
      else if conf.scheduler.try_lock_gap_milli_seconds == 0
      then lift panic
      else on_ticks conf ticks

-- asyncHandleSlice, with the UUID of its lock. `trigger key ack` is Work of the trigger, which runs
-- `ack` when all has gone well; its error is logged.
module _ {W : Type 0} (s : RedisServer W) (loc : Location) (conf : Config)
    (trigger : Bytes → Exec W (Unit {0}) → Exec W (Unit {0})) where
  unfoldable pub slice_locker : Bytes → Slice → RedisLock
  slice_locker token slice =
      new_redis_lock (get_time_bucket_lock_key loc slice.at slice.bucket_id) token
        (with_expire_seconds (pos conf.scheduler.try_lock_seconds) ∷ [])

  -- The error of DelayExpire is logged.
  unfoldable pub ack : RedisLock → Exec W (Unit {0})
  ack locker =
      attempt (delay_expire s locker (pos conf.scheduler.success_expire_seconds)) >>= λ o. pure tt

  handle_locked : Slice → RedisLock ⊎ Error → Exec W (Unit {0})
  handle_locked slice (inr e) = pure tt
  handle_locked slice (inl locker) =
      attempt (trigger (get_slice_msg_key loc slice.at slice.bucket_id) (ack locker)) >>= λ o.
      pure tt

  unfoldable pub async_handle_slice : Bytes → Slice → Exec W (Unit {0})
  unfolding slice_locker handle_locked ack
  async_handle_slice token slice =
      attempt (lock s (slice_locker token slice) []) >>= handle_locked slice
