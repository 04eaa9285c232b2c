-- ===== src/Biz/Scheduler/Once.antt =====
-- A slice that has been acknowledged is not taken again: internal/biz/scheduler.go over
-- pkg/lock/redis.go.
use codewave_timer.Base.{
  ℕ, ◌+◌, ◌*◌, ◌<◌, ◌≡◌, refl, ap, ◌∙◌, arith, List, [], ◌∷◌, some, Bytes, pos, Result, ok, false,
}
use codewave_timer.GoLib.Clock.{second, Location}
use codewave_timer.Config.{Config}
use codewave_timer.Redis.{RedisServer, IsRedis}
use codewave_timer.Exec.{Exec}
use codewave_timer.Lock.Options.{
  RedisLock, new_redis_lock, repair_lock, apply_all, with_expire_seconds,
}
use codewave_timer.Lock.Client.{delay_expire}
use codewave_timer.Lock.Owner.{Owns, lock_fails}
use codewave_timer.Lock.Lease.{HasLeases, IsAnswered, delay_expire_renews}
use codewave_timer.Biz.Scheduler.{Slice, slice_locker, ack, async_handle_slice}

-- What happens after a slice has been acknowledged: time passes, or a worker takes the slice up once
-- more, with the token that it draws.
pub data Move : Type 0 where
  waits : ℕ → Move
  takes : Bytes → Move

abbrev pub elapsed : List Move → ℕ
elapsed [] = 0
elapsed (waits d ∷ moves) = d + elapsed moves
elapsed (takes token ∷ moves) = elapsed moves

module _ {W : Type 0} (s : RedisServer W) (lease : HasLeases s) (loc : Location) (conf : Config)
    (trigger : Bytes → Exec W (Unit {0}) → Exec W (Unit {0})) (slice : Slice) where
  abbrev pub move : Move → W → W
  move (waits d) w = lease.passes d w
  move (takes token) w = (async_handle_slice s loc conf trigger token slice w).1

  pub moved : List Move → W → W
  moved [] w = w
  moved (m ∷ moves) w = moved moves (move m w)

  -- The same times with nobody there.
  pub idled : List Move → W → W
  idled [] w = w
  idled (waits d ∷ moves) w = idled moves (lease.passes d w)
  idled (takes token ∷ moves) w = idled moves w

  module _ (redis : IsRedis s) where
    no_block : (token : Bytes) → (slice_locker s loc conf trigger token slice).is_block ≡ false
    unfolding slice_locker new_redis_lock repair_lock apply_all with_expire_seconds
    no_block token = ground arith

    -- While the key has a value, taking the slice up does nothing.
    async_handle_slice_held :
        (token u : Bytes) (w : W)
        → s.get (slice_locker s loc conf trigger token slice).key w ≡ some u
        → async_handle_slice s loc conf trigger token slice w ≡ (ok tt, w)
    unfolding async_handle_slice
    async_handle_slice_held token u w h =
        let (e, fails) =
          lock_fails s redis (slice_locker s loc conf trigger token slice) w u (no_block token) h in
        rw fails

    moved-idled :
        (key u : Bytes) (moves : List Move) (w : W)
        → ((token : Bytes) → (slice_locker s loc conf trigger token slice).key ≡ key)
        → s.get key w ≡ some u
        → elapsed moves < lease.ttl key w
        → moved moves w ≡ idled moves w
    unfolding moved idled
    moved-idled key u [] w same h left = refl
    moved-idled key u (waits d ∷ moves) w same h left =
        let (kept, life) = lease.passes_keeps key d w h (omega arith) in
        moved-idled key u moves (lease.passes d w) same kept (omega (arith, life))
    moved-idled key u (takes token ∷ moves) w same h left =
        ap (λ (p : Result (Unit {0}) × W). moved moves p.1)
          (async_handle_slice_held token u w (ap (λ (k : Bytes). s.get k w) (same token) ∙ h))
        ∙ moved-idled key u moves w same h left

    same_key :
        (token token' : Bytes)
        → (slice_locker s loc conf trigger token slice).key
          ≡ (slice_locker s loc conf trigger token' slice).key
    unfolding slice_locker new_redis_lock
    same_key token token' = refl

    ack-delay_expire :
        (r : RedisLock) (w : W)
        → (delay_expire s r (pos conf.scheduler.success_expire_seconds) w).0 ≡ ok tt
        → (ack s loc conf trigger r w).1
          ≡ (delay_expire s r (pos conf.scheduler.success_expire_seconds) w).1
    unfolding ack
    ack-delay_expire r w h = rw h

    -- Once the owner of a slice has acknowledged it and redis has answered, workers that take the
    -- slice up again within the time that the acknowledgement gives leave no trace: the world is what
    -- it would be had only time passed, whatever the trigger would do.
    pub acknowledged_once :
        (token : Bytes) (moves : List Move) (w : W)
        → 0 < conf.scheduler.success_expire_seconds
        → Owns s (slice_locker s loc conf trigger token slice) w
        → IsAnswered s
            (slice_locker s loc conf trigger token slice)
            (pos conf.scheduler.success_expire_seconds)
            w
        → elapsed moves < conf.scheduler.success_expire_seconds * second
        → moved moves (ack s loc conf trigger (slice_locker s loc conf trigger token slice) w).1
          ≡ idled moves (ack s loc conf trigger (slice_locker s loc conf trigger token slice) w).1
    acknowledged_once token moves w positive mine answered short =
        let r = slice_locker s loc conf trigger token slice in
        let (fine, own, life) =
          delay_expire_renews s redis lease r (pos conf.scheduler.success_expire_seconds) w
            (omega arith) mine answered in
        rw (ack-delay_expire r w fine) (
          moved-idled r.key r.token moves
            (delay_expire s r (pos conf.scheduler.success_expire_seconds) w).1
            (λ other. same_key other token) own (omega (arith, life)))
