-- ===== src/Lock/Owner.antt =====
-- Who owns the lock: the client whose token redis holds under the key.
use codewave_timer.Base.{
  ◌≡◌, ◌≢◌, refl, ap, arith, inl, inr, Bool, true, false, List, [], ◌∷◌, none, some, Bytes,
  bytes_eq, bytes_eq_refl, Bool-cases, Option-cases, if◌then◌else◌, Result, ok, err, Error, panic,
  spin, lock_acquired_by_others,
}
use codewave_timer.Exec.{Exec, raise, ◌>>=◌}
use codewave_timer.Redis.{RedisServer, IsRedis}
use codewave_timer.Lock.Options.{RedisLock}
use codewave_timer.Lock.Client.{is_retryable_err, try_lock, of_seconds, watch_dog}
use codewave_timer.Lock.Blocking.{
  Tick, Flight, attempts, own, shared, ctx_over, timed_out, ctx_done, blocking_lock2,
  blocking_lock1, first_attempt, lock, single_flight_lock,
}

-- Redis holds the client's token under the key.
abbrev pub Owns : {W : Type 0} → RedisServer W → RedisLock → W → Type 0
Owns s r w = s.get r.key w ≡ some r.token

-- The lock with its watchdog started, if it has one.
abbrev pub with_dog : RedisLock → RedisLock
with_dog r =
    if r.watch_dog_mode
    then record r { running_dog = true; stop_dog = true; dog_stopped = false }
    else r

module _ {W : Type 0} (s : RedisServer W) (redis : IsRedis s) where
  -- The world after SETNX for the lock.
  abbrev put : RedisLock → W → W
  put r w = (s.set_nx r.key r.token (of_seconds r.expire_time_second) w).1

  -- How an attempt ends: it takes the free key, finds it held, or the request fails, with or
  -- without effect.
  data Attempt (r : RedisLock) (w : W) : Type 0 where
    takes : s.get r.key w ≡ none → try_lock s r w ≡ (ok tt, put r w) → Attempt r w
    held :
        (u : Bytes)
        → s.get r.key w ≡ some u
        → try_lock s r w ≡ (err lock_acquired_by_others, w)
        → Attempt r w
    lost : (e : Error) → try_lock s r w ≡ (err e, w) → Attempt r w
    unheard : (e : Error) → s.get r.key w ≡ none → try_lock s r w ≡ (err e, put r w) → Attempt r w

  try_lock-Attempt : (r : RedisLock) (w : W) → Attempt r w
  unfolding try_lock
  try_lock-Attempt r w = elim (Option-cases (s.get r.key w)) [
    | inl free ↦
        let (set, _) = redis.set_nx_free r.key r.token (of_seconds r.expire_time_second) w free in
        elim (redis.sends Bool (s.set_nx r.key r.token (of_seconds r.expire_time_second)) w) [
          | inl e ↦ takes free (rw (e, set))
          | inr (x, inl e) ↦ lost x (rw e)
          | inr (x, inr e) ↦ unheard x free (rw e)
        ]
    | inr (u, taken) ↦
        let same = redis.set_nx_held r.key r.token (of_seconds r.expire_time_second) w taken in
        elim (redis.sends Bool (s.set_nx r.key r.token (of_seconds r.expire_time_second)) w) [
          | inl e ↦ held u taken (rw (e, same))
          | inr (x, inl e) ↦ lost x (rw e)
          | inr (x, inr e) ↦ lost x (rw (e, same))
        ]
  ]

  put_lem :
      (r : RedisLock) (w : W) (j : Bytes)
      → s.get r.key w ≡ none
      → s.get j (put r w) ≡ (if bytes_eq r.key j then some r.token else s.get j w)
  put_lem r w j free =
      (redis.set_nx_free r.key r.token (of_seconds r.expire_time_second) w free).1 j

  put-Owns : (r : RedisLock) (w : W) → s.get r.key w ≡ none → Owns s r (put r w)
  put-Owns r w free = rw (put_lem r w r.key free, bytes_eq_refl r.key)

  -- An attempt that succeeds found the key free and makes the caller the owner; other keys keep
  -- their values.
  pub try_lock-Owns :
      (r : RedisLock) (w : W)
      → (try_lock s r w).0 ≡ ok tt
      → (s.get r.key w ≡ none)
        × Owns s r (try_lock s r w).1
        × ((j : Bytes) → bytes_eq r.key j ≡ false → s.get j (try_lock s r w).1 ≡ s.get j w)
  try_lock-Owns r w h = elim (try_lock-Attempt r w) [
    | takes free e ↦ (free, rw e (put-Owns r w free), λ j ne. rw (e, put_lem r w j free, ne))
    | held u taken e ↦ absurd (ground arith)
    | lost x e ↦ absurd (ground arith)
    | unheard x free e ↦ absurd (ground arith)
  ]

  -- While another client holds the key, an attempt fails and changes nothing.
  pub try_lock_held :
      (r : RedisLock) (w : W) (u : Bytes)
      → s.get r.key w ≡ some u
      → ((try_lock s r w).1 ≡ w) × ((try_lock s r w).0 ≢ ok tt)
  try_lock_held r w u h = elim (try_lock-Attempt r w) [
    | takes free e ↦ absurd (ground arith)
    | held u taken e ↦ (ap (λ p. p.1) e, ground arith)
    | lost x e ↦ (ap (λ p. p.1) e, ground arith)
    | unheard x free e ↦ absurd (ground arith)
  ]

  pub try_lock_fails :
      (r : RedisLock) (w : W) (u : Bytes)
      → s.get r.key w ≡ some u
      → (e : Error) × (try_lock s r w ≡ (err e, w))
  try_lock_fails r w u h = elim (try_lock-Attempt r w) [
    | takes free e ↦ absurd (ground arith)
    | held u taken e ↦ (_, e)
    | lost x e ↦ (x, e)
    | unheard x free e ↦ absurd (ground arith)
  ]

  -- Lock without blocking, while another client holds the key: an error, and nothing changes.
  pub lock_fails :
      (r : RedisLock) (w : W) (u : Bytes)
      → r.is_block ≡ false
      → s.get r.key w ≡ some u
      → (e : Error) × (lock s r [] w ≡ (err e, w))
  unfolding lock first_attempt
  lock_fails r w u no_block h =
      let (e, fails) = try_lock_fails r w u h in (e, rw (fails, no_block) refl)

  wait_step :
      (r : RedisLock) (x : Error) (again : Exec W (Unit {0})) (w : W)
      → ((if is_retryable_err x then again else raise x) w).0 ≡ ok tt
      → ((again w).0 ≡ ok tt → Owns s r (again w).1)
      → Owns s r ((if is_retryable_err x then again else raise x) w).1
  wait_step r x again w h ih = elim (Bool-cases (is_retryable_err x)) [
    | inl waits ↦ rw waits (ih (rw waits at h))
    | inr fails ↦ absurd (ground arith)
  ]

  -- A blocking wait that succeeds has made the caller the owner, whatever the other clients did.
  blocking_lock2-Owns :
      (r : RedisLock) (ticks : List (Tick W)) (w : W)
      → (blocking_lock2 s r ticks w).0 ≡ ok tt
      → Owns s r (blocking_lock2 s r ticks w).1
  unfolding blocking_lock2
  blocking_lock2-Owns r [] w h = absurd (ground arith)
  blocking_lock2-Owns r (ctx_done n ∷ ticks) w h = absurd (ground arith)
  blocking_lock2-Owns r (timed_out ∷ ticks) w h = absurd (ground arith)
  blocking_lock2-Owns r (attempts others ∷ ticks) w h = elim (try_lock-Attempt r (others w)) [
    | takes free e ↦ rw e (put-Owns r (others w) free)
    | held u taken e ↦ rw e (
        wait_step r _ (blocking_lock2 s r ticks) (others w) (rw e at h)
          (blocking_lock2-Owns r ticks (others w)))
    | lost x e ↦ rw e (
        wait_step r x (blocking_lock2 s r ticks) (others w) (rw e at h)
          (blocking_lock2-Owns r ticks (others w)))
    | unheard x free e ↦ rw e (
        wait_step r x (blocking_lock2 s r ticks) (put r (others w)) (rw e at h)
          (blocking_lock2-Owns r ticks (put r (others w))))
  ]

  watch_dog_keeps : (r : RedisLock) (w : W) → (watch_dog s r w).1 ≡ w
  unfolding watch_dog
  watch_dog_keeps r w = ground arith

  started :
      (r : RedisLock) (p : Result (Unit {0}) × W) {r' : RedisLock}
      → (p.0 ≡ ok tt → Owns s r p.1)
      → (((λ (w : W). p) >>= λ u. watch_dog s r) p.1).0 ≡ ok r'
      → Owns s r (((λ (w : W). p) >>= λ u. watch_dog s r) p.1).1
  started r (ok u, w) mine h = rw (watch_dog_keeps r w) (mine refl)
  started r (err e, w) mine h = absurd (ground arith)
  started r (panic, w) mine h = absurd (ground arith)
  started r (spin, w) mine h = absurd (ground arith)

  waits_or_fails :
      (r : RedisLock) (x : Error) (wait : Exec W (Unit {0})) (w : W)
      → ((if r.is_block then if is_retryable_err x then wait else raise x else raise x) w).0 ≡ ok tt
      → ((wait w).0 ≡ ok tt → Owns s r (wait w).1)
      → Owns s r
          ((if r.is_block then if is_retryable_err x then wait else raise x else raise x) w).1
  waits_or_fails r x wait w h ih = elim (Bool-cases r.is_block) [
    | inl blocks ↦ rw blocks (wait_step r x wait w (rw blocks at h) ih)
    | inr fails ↦ absurd (ground arith)
  ]

  first_attempt-Owns :
      (r : RedisLock) (wait : Exec W (Unit {0})) (w : W)
      → ((w' : W) → (wait w').0 ≡ ok tt → Owns s r (wait w').1)
      → (first_attempt s r wait w).0 ≡ ok tt
      → Owns s r (first_attempt s r wait w).1
  unfolding first_attempt
  first_attempt-Owns r wait w ih h = elim (try_lock-Attempt r w) [
    | takes free e ↦ rw e (put-Owns r w free)
    | held u taken e ↦ rw e (waits_or_fails r _ wait w (rw e at h) (ih w))
    | lost x e ↦ rw e (waits_or_fails r x wait w (rw e at h) (ih w))
    | unheard x free e ↦ rw e (waits_or_fails r x wait (put r w) (rw e at h) (ih (put r w)))
  ]

  -- Lock: when it returns without an error the caller owns the lock, blocking or not, whatever the
  -- other clients did while it waited.
  pub lock-Owns :
      (r : RedisLock) (ticks : List (Tick W)) (w : W) {r' : RedisLock}
      → (lock s r ticks w).0 ≡ ok r'
      → Owns s r (lock s r ticks w).1
  unfolding lock
  lock-Owns r ticks w h =
      started r (first_attempt s r (blocking_lock2 s r ticks) w)
        (first_attempt-Owns r (blocking_lock2 s r ticks) w (blocking_lock2-Owns r ticks)) h

  pub watch_dog-with_dog :
      (r : RedisLock) (w : W) → r.running_dog ≡ false → watch_dog s r w ≡ (ok (with_dog r), w)
  unfolding watch_dog
  watch_dog-with_dog r w quiet = ground arith

  unsound :
      (r : RedisLock) (f : Flight) (w : W)
      → f ≢ own
      → r.is_block ≡ true
      → try_lock s r w ≡ (err lock_acquired_by_others, w)
      → single_flight_lock s r ((attempts (λ w'. w'), f) ∷ []) w ≡ watch_dog s r w
  unfolding single_flight_lock blocking_lock1 is_retryable_err
  unsound r own w nf blocks e = absurd (nf refl)
  unsound r shared w nf blocks e = rw (e, blocks)
  unsound r ctx_over w nf blocks e = rw (e, blocks)

  -- A SingleFlightLock with blocking, without a watchdog that runs already, on a lock that another
  -- client holds and for which its own first attempt is refused: when its one round of waiting is
  -- answered by another caller's flight, or its context ends in it, the caller gets no error, its
  -- watchdog is started if it has that mode, and the other client still holds the lock.
  pub single_flight_lock_unsound :
      (r : RedisLock) (f : Flight) (w : W) (u : Bytes)
      → f ≢ own
      → r.is_block ≡ true
      → r.running_dog ≡ false
      → s.get r.key w ≡ some u
      → (try_lock s r w).0 ≡ err lock_acquired_by_others
      → ((single_flight_lock s r ((attempts (λ w'. w'), f) ∷ []) w).0 ≡ ok (with_dog r))
        × (s.get r.key (single_flight_lock s r ((attempts (λ w'. w'), f) ∷ []) w).1 ≡ some u)
  single_flight_lock_unsound r f w u nf blocks quiet taken refused =
      rw
        (
          unsound r f w nf blocks (λ i. (refused i, (try_lock_held r w u taken).0 i)),
          watch_dog-with_dog r w quiet,
        )
        (refl, taken)
