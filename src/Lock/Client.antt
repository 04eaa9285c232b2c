-- ===== src/Lock/Client.antt =====
-- Acquiring, extending and releasing the lock: pkg/lock/redis.go.
use codewave_timer.Base.{
  ℕ, ◌*◌, ◌⊎◌, inl, inr, Bool, true, false, List, [], ◌∷◌, Option, none, some, Bytes, bytes_eq,
  if◌then◌else◌, ℤ, pos_part, neg_part, sub_ℕ, to_int64, to_uint64, ok, Error, spin,
  lock_acquired_by_others, delete_lock_failure, delay_expire_failed, lock_timeout, timer_failed,
  task_failed, service_failed,
}
use codewave_timer.GoLib.Clock.{second}
use codewave_timer.Exec.{Exec, pure, raise, lift, attempt, ◌>>=◌}
use codewave_timer.Redis.{RedisServer, client_set_nx, eval_bool}
use codewave_timer.Lock.Options.{RedisLock}

-- errors.Is(err, ErrLockAcquiredByOthers), through the wraps with %w and Join
unfoldable pub is_retryable_err : Error → Bool
is_retryable_err lock_acquired_by_others = true
is_retryable_err (lock_timeout e) = is_retryable_err e
is_retryable_err (timer_failed e) = is_retryable_err e
is_retryable_err (task_failed e) = is_retryable_err e
is_retryable_err (service_failed e) = is_retryable_err e
is_retryable_err _ = false

-- `time.Duration(seconds) * time.Second`, an int64 that wraps around
unfoldable pub of_seconds : ℤ → ℤ
unfolding to_int64 to_uint64
of_seconds a = to_int64 (to_uint64 (sub_ℕ (pos_part a * second) (neg_part a * second)))

module _ {W : Type 0} (s : RedisServer W) where
  -- LuaCheckAndDeleteDistributionLock
  unfoldable pub lua_check_and_delete : Bytes → Bytes → W → ℕ × W
  lua_check_and_delete locker_key target_token w = elim (s.get locker_key w) [
    | none ↦ (0, w)
    | some get_token ↦ if bytes_eq get_token target_token then s.del locker_key w else (0, w)
  ]

  -- LuaCheckAndExpireDistributionLock
  unfoldable pub lua_check_and_expire : Bytes → Bytes → ℤ → W → ℕ × W
  lua_check_and_expire locker_key target_token duration w = elim (s.get locker_key w) [
    | none ↦ (0, w)
    | some get_token ↦
        if bytes_eq get_token target_token then s.expire locker_key duration w else (0, w)
  ]

  unfoldable pub try_lock : RedisLock → Exec W (Unit {0})
  unfolding client_set_nx
  try_lock r = client_set_nx s r.key r.token (of_seconds r.expire_time_second) >>= λ result.
      if result then pure tt else raise lock_acquired_by_others

  -- An error of redis is not passed on.
  unfoldable pub delay_expire : RedisLock → ℤ → Exec W (Unit {0})
  unfolding eval_bool lua_check_and_expire
  delay_expire r expire_seconds =
      attempt (eval_bool s (lua_check_and_expire r.key r.token expire_seconds)) >>= λ o. elim o [
        | inr e ↦ pure tt
        | inl result ↦ if result then pure tt else raise delay_expire_failed
      ]

  stop : RedisLock → RedisLock
  stop r = if r.stop_dog then record r { dog_stopped = true } else r

  released : Bool ⊎ Error → Option Error
  released (inr e) = some e
  released (inl true) = none
  released (inl false) = some delete_lock_failure

  -- Unlock: the error if there is one, and the lock with its watchdog stopped in either case.
  unfoldable pub unlock : RedisLock → Exec W (Option Error × RedisLock)
  unfolding eval_bool lua_check_and_delete stop released
  unlock r =
      attempt (eval_bool s (lua_check_and_delete r.key r.token)) >>= λ o. pure (released o, stop r)

  -- watchDog. With an earlier watchdog that still runs, the compare-and-swap is tried again until that
  -- one has ended; nobody ends it within this call, so that the call does not come back here.
  unfoldable pub watch_dog : RedisLock → Exec W RedisLock
  watch_dog r =
      if r.watch_dog_mode
      then if r.running_dog
        then lift spin
        else pure (record r { running_dog = true; stop_dog = true; dog_stopped = false })
      else pure r

  -- runWatchDog over the ticks of its ticker: what others do before a tick, and whether the context
  -- is done by then. An error of delayExpire is dropped.
  unfoldable pub run_watch_dog : List ((W → W) × Bool) → RedisLock → Exec W RedisLock
  unfolding delay_expire
  run_watch_dog [] r w = (ok r, w)
  run_watch_dog ((others, done) ∷ ticks) r w =
      let extend =
        (attempt (delay_expire r r.expire_time_second) >>= λ o. run_watch_dog ticks r) (others w) in
      if done then (ok (record r { running_dog = false }), others w) else extend
