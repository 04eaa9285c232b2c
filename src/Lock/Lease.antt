-- ===== src/Lock/Lease.antt =====
-- How long a key lives in redis, and that the watchdog of pkg/lock/redis.go keeps a lock alive.
use codewave_timer.Base.{
  ℕ, ◌-◌, ◌*◌, ◌≤◌, ◌<◌, ◌≡◌, refl, ◌∙◌, arith, Bool, true, false, List, [], ◌∷◌, All, some, Bytes,
  ℤ, pos, pos_part, ◌<ℤ◌, ◌≤ℤ◌, ok,
}
use codewave_timer.GoLib.Clock.{second}
use codewave_timer.Redis.{RedisServer, IsRedis, eval_bool}
use codewave_timer.Lock.Options.{RedisLock, IsRepaired}
use codewave_timer.Lock.Client.{delay_expire, run_watch_dog, lua_check_and_expire}
use codewave_timer.Lock.Owner.{Owns}
use codewave_timer.Lock.Release.{expire_mine}

-- The documented behaviour of times to live, in nanoseconds: EXPIRE sets that of its key, and a key
-- does not disappear before its time is over.
pub record HasLeases {W : Type 0} (s : RedisServer W) : Type 1 where
  pub ttl : Bytes → W → ℕ
  pub passes : ℕ → W → W  -- the world some nanoseconds later
  pub ttl-expire :
      (k : Bytes) (n : ℤ) (w : W) {u : Bytes}
      → s.get k w ≡ some u
      → pos 0 <ℤ n
      → ttl k (s.expire k n w).1 ≡ pos_part n * second
  pub passes_keeps :
      (k : Bytes) (d : ℕ) (w : W) {u : Bytes}
      → s.get k w ≡ some u
      → d < ttl k w
      → (s.get k (passes d w) ≡ some u) × (ttl k (passes d w) ≡ ttl k w - d)

-- Requests are answered.
abbrev pub Answers : {W : Type 0} → RedisServer W → Type 1
Answers {W} s = (A : Type 0) (f : W → A × W) (w : W) → s.send A f w ≡ (ok (f w).0, (f w).1)

-- The request to extend a lock is.
abbrev pub IsAnswered : {W : Type 0} → RedisServer W → RedisLock → ℤ → W → Type 0
IsAnswered s r n w = s.send ℕ (lua_check_and_expire s r.key r.token n) w ≡ (
  ok (lua_check_and_expire s r.key r.token n w).0,
  (lua_check_and_expire s r.key r.token n w).1,
)

module _ {W : Type 0} (s : RedisServer W) (redis : IsRedis s) (lease : HasLeases s) where
  -- An owner whose request is answered has the lock for the time that it asked for.
  pub delay_expire_renews :
      (r : RedisLock) (n : ℤ) (w : W)
      → pos 0 <ℤ n
      → Owns s r w
      → IsAnswered s r n w
      → ((delay_expire s r n w).0 ≡ ok tt)
        × Owns s r (delay_expire s r n w).1
        × (lease.ttl r.key (delay_expire s r n w).1 ≡ pos_part n * second)
  unfolding delay_expire eval_bool
  delay_expire_renews r n w positive mine answered =
      let same = expire_mine s redis r.key r.token n w mine in
      let held = redis.expire_held r.key n w mine positive in
      rw (answered, same, held.0)
        (refl, held.1 r.key ∙ mine, lease.ttl-expire r.key n w mine positive)

  watch_dog_ticks :
      (r : RedisLock) (others : W → W) (ticks : List ((W → W) × Bool)) (w : W)
      → (delay_expire s r r.expire_time_second (others w)).0 ≡ ok tt
      → run_watch_dog s ((others, false) ∷ ticks) r w
        ≡ run_watch_dog s ticks r (delay_expire s r r.expire_time_second (others w)).1
  unfolding run_watch_dog
  watch_dog_ticks r others ticks w h = rw h

  -- What may happen within a period of the watchdog: the key is left alone, and no more than the
  -- period passes.
  abbrev pub IsPeriod : RedisLock → (W → W) × Bool → Type 0
  IsPeriod r tick =
      (w : W)
      → Owns s r w
      → pos_part r.watch_dog_work_step_time < lease.ttl r.key w
      → Owns s r (tick.0 w)

  module _ (answered : Answers s) (r : RedisLock) (positive : pos 0 <ℤ r.expire_time_second)
      (often : pos_part r.watch_dog_work_step_time < pos_part r.expire_time_second * second) where
    watch_dog_keeps_from :
        (ticks : List ((W → W) × Bool)) (w : W)
        → All (IsPeriod r) ticks
        → Owns s r w
        → pos_part r.watch_dog_work_step_time < lease.ttl r.key w
        → Owns s r (run_watch_dog s ticks r w).1
    watch_dog_keeps_from [] w h mine left = unfold run_watch_dog in mine
    watch_dog_keeps_from ((others, true) ∷ ticks) w h mine left =
        unfold run_watch_dog in h.0 w mine left
    watch_dog_keeps_from ((others, false) ∷ ticks) w h mine left =
        let (fine, own, life) =
          delay_expire_renews r r.expire_time_second (others w) positive (h.0 w mine left)
            (answered ℕ (lua_check_and_expire s r.key r.token r.expire_time_second) (others w)) in
        rw (watch_dog_ticks r others ticks w fine) (
          watch_dog_keeps_from ticks (delay_expire s r r.expire_time_second (others w)).1 h.1 own
            (omega (arith, life, often)))

  -- A lock with repaired options, a watchdog and a life of at most 2^33 seconds is kept for as long
  -- as its watchdog ticks, any number of times, if it has more than a period left at the start, its
  -- requests are answered, and what happens within a period leaves a key that has more than the
  -- period left.
  pub watch_dog_keeps_lock :
      (r : RedisLock) (ticks : List ((W → W) × Bool)) (w : W)
      → IsRepaired r.options
      → r.watch_dog_mode ≡ true
      → r.expire_time_second ≤ℤ pos 8589934592
      → Answers s
      → All (IsPeriod r) ticks
      → Owns s r w
      → pos_part r.watch_dog_work_step_time < lease.ttl r.key w
      → Owns s r (run_watch_dog s ticks r w).1
  watch_dog_keeps_lock r ticks w repaired dog short answered periods mine left =
      let positive = repaired.expires dog in
      let steps = repaired.steps dog short in
      watch_dog_keeps_from answered r positive (omega (arith, steps.0, steps.1)) ticks w periods
        mine left

  -- Time alone is such a thing.
  pub passes-IsPeriod :
      (r : RedisLock) (d : ℕ) (done : Bool)
      → d ≤ pos_part r.watch_dog_work_step_time
      → IsPeriod r (lease.passes d, done)
  passes-IsPeriod r d done short w mine left = (lease.passes_keeps r.key d w mine (omega arith)).0
