-- ===== src/Lock/Waiting.antt =====
-- A blocking Lock of pkg/lock/redis.go gets the lock once the key is free.
use codewave_timer.Base.{
  if_true, ◌≡◌, refl, ◌∙◌, ap, Bool, true, false, List, [], ◌∷◌, none, some, Option-cases, inl, inr,
  ok, err, Bytes, lock_acquired_by_others,
}
use codewave_timer.Exec.{Exec}
use codewave_timer.Redis.{RedisServer, IsRedis}
use codewave_timer.Lock.Options.{RedisLock}
use codewave_timer.Lock.Client.{is_retryable_err, try_lock, of_seconds}
use codewave_timer.Lock.Blocking.{Tick, attempts, first_attempt, blocking_lock2, lock}
use codewave_timer.Lock.Owner.{Owns, with_dog, watch_dog-with_dog, lock-Owns}
use codewave_timer.Lock.Lease.{Answers}

module _ {W : Type 0} where
  -- Ticks at which the loop tries again, after what others have done, and the ticks that follow.
  abbrev pub retries : List (W → W) → List (Tick W) → List (Tick W)
  retries [] ticks = ticks
  retries (o ∷ os) ticks = attempts o ∷ retries os ticks

  -- What others do, one after the other.
  abbrev pub after_all : List (W → W) → W → W
  after_all [] w = w
  after_all (o ∷ os) w = after_all os (o w)

module _ {W : Type 0} (s : RedisServer W) (redis : IsRedis s) (answered : Answers s)
    (r : RedisLock) where
  try_lock_free : (w : W) → s.get r.key w ≡ none → (try_lock s r w).0 ≡ ok tt
  unfolding try_lock
  try_lock_free w free =
      rw
        (
          answered Bool (s.set_nx r.key r.token (of_seconds r.expire_time_second)) w,
          (redis.set_nx_free r.key r.token (of_seconds r.expire_time_second) w free).0,
        )
        refl

  try_lock_busy :
      (w : W) (u : Bytes)
      → s.get r.key w ≡ some u
      → try_lock s r w ≡ (err lock_acquired_by_others, w)
  unfolding try_lock
  try_lock_busy w u taken =
      rw
        (
          answered Bool (s.set_nx r.key r.token (of_seconds r.expire_time_second)) w,
          redis.set_nx_held r.key r.token (of_seconds r.expire_time_second) w taken,
        )
        refl

  blocking_lock2_acquires :
      (os : List (W → W)) (o : W → W) (rest : List (Tick W)) (w : W)
      → s.get r.key (o (after_all os w)) ≡ none
      → (blocking_lock2 s r (retries os (attempts o ∷ rest)) w).0 ≡ ok tt
  unfolding blocking_lock2 is_retryable_err
  blocking_lock2_acquires [] o rest w free = rw (try_lock_free (o w) free)
  blocking_lock2_acquires (o' ∷ os) o rest w free = elim (Option-cases (s.get r.key (o' w))) [
    | inl now ↦ rw (try_lock_free (o' w) now)
    | inr (u, taken) ↦
        rw (try_lock_busy (o' w) u taken) (blocking_lock2_acquires os o rest (o' w) free)
  ]

  module _ (blocks : r.is_block ≡ true) (os : List (W → W)) (o : W → W) (rest : List (Tick W)) where
    first_attempt_acquires :
        (w : W)
        → s.get r.key (o (after_all os w)) ≡ none
        → (first_attempt s r (blocking_lock2 s r (retries os (attempts o ∷ rest))) w).0 ≡ ok tt
    unfolding first_attempt is_retryable_err
    first_attempt_acquires w free = elim (Option-cases (s.get r.key w)) [
      | inl now ↦ rw (try_lock_free w now)
      | inr (u, taken) ↦ rw (try_lock_busy w u taken) (
          ap (λ (m : Exec W (Unit {0})). (m w).0) (if_true _ _ blocks)
          ∙ blocking_lock2_acquires os o rest w free)
    ]

    -- A blocking Lock whose requests are answered and whose watchdog does not run already returns
    -- with the lock, and with its watchdog started if it has one, if the key is free at a tick before
    -- its waiting time and its context are over, whatever the others do until then.
    pub lock_acquires :
        (w : W)
        → r.running_dog ≡ false
        → s.get r.key (o (after_all os w)) ≡ none
        → ((lock s r (retries os (attempts o ∷ rest)) w).0 ≡ ok (with_dog r))
          × Owns s r (lock s r (retries os (attempts o ∷ rest)) w).1
    lock_acquires w quiet free =
        let won : (lock s r (retries os (attempts o ∷ rest)) w).0 ≡ ok (with_dog r) =
          unfold lock in
          rw (first_attempt_acquires w free)
            (ap (λ p. p.0) (watch_dog-with_dog s redis r _ quiet)) in
        (won, lock-Owns s redis r (retries os (attempts o ∷ rest)) w won)
