-- ===== src/Lock/Options.antt =====
-- The options of a lock and how they are repaired: pkg/lock/redis.go.
use codewave_timer.Base.{
  ◌*◌, ◌≤◌, ◌≡◌, arith, Bool, true, false, ◌&&◌, List, [], ◌∷◌, Bytes, if◌then◌else◌, ℤ, pos, leb_ℤ,
  ◌≤ℤ◌, pos_part, to_int64, quot_ℤ, ◌<ℤ◌,
}
use codewave_timer.GoLib.Clock.{second}

pub record LockOptions : Type 0 where
  pub is_block : Bool
  pub watch_dog_work_step_time : ℤ  -- nanoseconds
  pub block_waiting_second : ℤ
  pub expire_time_second : ℤ
  pub watch_dog_mode : Bool

pub record RedisLock : Type 0 where
  pub options : LockOptions
  pub open options use *
  pub key : Bytes
  pub token : Bytes
  pub running_dog : Bool
  pub stop_dog : Bool  -- `stopDog` is set
  pub dog_stopped : Bool  -- and has been called

abbrev pub LockOption : Type 0
LockOption = LockOptions → LockOptions

unfoldable pub with_block : LockOption
with_block o = record o { is_block = true }

unfoldable pub with_block_waiting_seconds : ℤ → LockOption
with_block_waiting_seconds waiting_seconds o = record o { block_waiting_second = waiting_seconds }

unfoldable pub with_expire_seconds : ℤ → LockOption
with_expire_seconds expire_time o = record o { expire_time_second = expire_time }

unfoldable pub with_watch_dog_mode : LockOption
with_watch_dog_mode o = record o { watch_dog_mode = true }

default_waiting : LockOptions → LockOptions
default_waiting o =
    if o.is_block && leb_ℤ o.block_waiting_second (pos 0)
    then record o { block_waiting_second = pos 5 }
    else o

no_dog_without_expiry : LockOptions → LockOptions
no_dog_without_expiry o =
    if leb_ℤ o.expire_time_second (pos 0) then record o { watch_dog_mode = false } else o

dog_step : LockOptions → LockOptions
dog_step o =
    if o.watch_dog_mode
    then record o {
      watch_dog_work_step_time = quot_ℤ (to_int64 (pos_part o.expire_time_second * second)) 3;
    }
    else o

unfoldable pub repair_lock : LockOptions → LockOptions
unfolding default_waiting no_dog_without_expiry dog_step
repair_lock o = dog_step (no_dog_without_expiry (default_waiting o))

abbrev pub no_options : LockOptions
no_options = record {
  is_block = false;
  watch_dog_work_step_time = pos 0;
  block_waiting_second = pos 0;
  expire_time_second = pos 0;
  watch_dog_mode = false;
}

unfoldable pub apply_all : List LockOption → LockOptions → LockOptions
apply_all [] o = o
apply_all (opt ∷ opts) o = apply_all opts (opt o)

-- NewRedisLock, with the UUID that it draws.
unfoldable pub new_redis_lock : Bytes → Bytes → List LockOption → RedisLock
unfolding apply_all repair_lock
new_redis_lock key token opts = record {
  options = repair_lock (apply_all opts no_options);
  key = key;
  token = token;
  running_dog = false;
  stop_dog = false;
  dog_stopped = false;
}

-- Repaired options: a blocking lock waits for a positive time, and a watchdog runs only for a lock
-- that expires, three times within its life, if that life is at most 2^33 seconds.
pub record IsRepaired (o : LockOptions) : Type 0 where
  pub waits : o.is_block ≡ true → pos 0 <ℤ o.block_waiting_second
  pub expires : o.watch_dog_mode ≡ true → pos 0 <ℤ o.expire_time_second
  pub steps :
      o.watch_dog_mode ≡ true
      → o.expire_time_second ≤ℤ pos 8589934592
      → (pos 0 <ℤ o.watch_dog_work_step_time)
        × (pos_part o.watch_dog_work_step_time * 3 ≤ pos_part o.expire_time_second * second)

-- RepairLock gives repaired options, whatever it is given.
pub repair_lock-IsRepaired : (o : LockOptions) → IsRepaired (repair_lock o)
unfolding repair_lock to_int64 quot_ℤ
repair_lock-IsRepaired o = record {
  waits = λ h. ground arith;
  expires = λ h. ground arith;
  steps = λ h k. ground arith;
}

-- Repairing twice changes nothing more.
pub repair_lock_idem : (o : LockOptions) → repair_lock (repair_lock o) ≡ repair_lock o
unfolding repair_lock
repair_lock_idem o = ground arith
