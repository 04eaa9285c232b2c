-- ===== src/Lock/Blocking.antt =====
-- Lock and SingleFlightLock with their polling loops: pkg/lock/redis.go. A loop reads a list of
-- ticks, one for each round: what the `select` finds, and what other clients do before the attempt.
use codewave_timer.Base.{
  ℕ, ◌⊎◌, inl, inr, List, [], ◌∷◌, if◌then◌else◌, Error, spin, lock_acquired_by_others,
  lock_timeout, foreign,
}
use codewave_timer.Exec.{Exec, pure, raise, lift, attempt, ◌>>=◌}
use codewave_timer.Redis.{RedisServer}
use codewave_timer.Lock.Options.{RedisLock}
use codewave_timer.Lock.Client.{is_retryable_err, try_lock, watch_dog}

pub data Tick (W : Type 0) : Type 0 where
  ctx_done : ℕ → Tick W  -- with the number of ctx.Err()
  timed_out : Tick W
  attempts : (W → W) → Tick W

-- How the call of singleflight's DoChan ends in one round: this caller's function ran, the result
-- of another caller came, or the context ended first.
pub data Flight : Type 0 where
  own shared ctx_over : Flight

module _ {W : Type 0} (s : RedisServer W) where
  retry : Exec W (Unit {0}) → Unit {0} ⊎ Error → Exec W (Unit {0})
  retry again (inl u) = pure u
  retry again (inr e) = if is_retryable_err e then again else raise e

  unfoldable pub blocking_lock2 : RedisLock → List (Tick W) → Exec W (Unit {0})
  unfolding retry
  blocking_lock2 r [] = lift spin
  blocking_lock2 r (ctx_done n ∷ ticks) = raise (lock_timeout (foreign n))
  blocking_lock2 r (timed_out ∷ ticks) = raise (lock_timeout lock_acquired_by_others)
  blocking_lock2 r (attempts others ∷ ticks) =
      λ w. (attempt (try_lock s r) >>= retry (blocking_lock2 r ticks)) (others w)

  -- The anonymous function of a round of blockingLock1.
  flight : RedisLock → Flight → Exec W (Unit {0})
  flight r own = try_lock s r
  flight r shared = pure tt
  flight r ctx_over = pure tt

  unfoldable pub blocking_lock1 : RedisLock → List (Tick W × Flight) → Exec W (Unit {0})
  unfolding retry flight
  blocking_lock1 r [] = lift spin
  blocking_lock1 r ((ctx_done n, f) ∷ ticks) = raise (lock_timeout (foreign n))
  blocking_lock1 r ((timed_out, f) ∷ ticks) = raise (lock_timeout lock_acquired_by_others)
  blocking_lock1 r ((attempts others, f) ∷ ticks) =
      λ w. (attempt (flight r f) >>= retry (blocking_lock1 r ticks)) (others w)

  -- The part that Lock and SingleFlightLock share.
  acquire : RedisLock → Exec W (Unit {0}) → Unit {0} ⊎ Error → Exec W (Unit {0})
  acquire r wait (inl u) = pure u
  acquire r wait (inr e) =
      if r.is_block then if is_retryable_err e then wait else raise e else raise e

  unfoldable pub first_attempt : RedisLock → Exec W (Unit {0}) → Exec W (Unit {0})
  unfolding acquire
  first_attempt r wait = attempt (try_lock s r) >>= acquire r wait

  unfoldable pub lock : RedisLock → List (Tick W) → Exec W RedisLock
  unfolding first_attempt
  lock r ticks = first_attempt r (blocking_lock2 r ticks) >>= λ u. watch_dog s r

  unfoldable pub single_flight_lock : RedisLock → List (Tick W × Flight) → Exec W RedisLock
  unfolding first_attempt
  single_flight_lock r ticks = first_attempt r (blocking_lock1 r ticks) >>= λ u. watch_dog s r
