-- ===== src/Tests/Leases.antt =====
-- A redis server whose keys expire, and the theorems of the leases on it.
use codewave_timer.Base.{
  ℕ, ◌-◌, ◌*◌, ◌≡◌, refl, arith, inl, inr, Bool, true, false, List, [], ◌∷◌, Option, none, some,
  Bytes, bytes_eq, bytes_eq_refl, if◌then◌else◌, ℤ, pos, pos_part, ltb_ℤ, ltb, codes, ok,
  Bool-cases, Option-cases, bytes_eq→eq, sym, ap, ◌∙◌, ◌<ℤ◌, to_int64, quot_ℤ, ◌<◌,
}
use codewave_timer.GoLib.Clock.{second}
use codewave_timer.Redis.{RedisServer, IsRedis}
use codewave_timer.Exec.{Exec}
use codewave_timer.Lock.Options.{
  RedisLock, new_redis_lock, repair_lock, apply_all, with_expire_seconds, with_watch_dog_mode,
  no_options, repair_lock-IsRepaired,
}
use codewave_timer.Lock.Client.{run_watch_dog}
use codewave_timer.Config.{shipped}
use codewave_timer.Biz.Scheduler.{Slice, slice_locker, ack}
use codewave_timer.Biz.Scheduler.Once.{Move, waits, takes, moved, idled, acknowledged_once}
use codewave_timer.Tests.Biz.{shanghai, t0}
use codewave_timer.Lock.Owner.{Owns}
use codewave_timer.Lock.Lease.{HasLeases, watch_dog_keeps_lock, passes-IsPeriod}

-- A value and the nanoseconds that it has left.
abbrev Leased : Type 0
Leased = Bytes → Option (Bytes × ℕ)

abbrev value : Option (Bytes × ℕ) → Option Bytes
value none = none
value (some (v, left)) = some v

abbrev left_of : Option (Bytes × ℕ) → ℕ
left_of none = 0
left_of (some (v, left)) = left

abbrev write : Bytes → Option (Bytes × ℕ) → Leased → Leased
write k e w j = if bytes_eq k j then e else w j

abbrev older : ℕ → Option (Bytes × ℕ) → Option (Bytes × ℕ)
older d none = none
older d (some (v, left)) = if ltb d left then some (v, left - d) else none

abbrev renewed : ℤ → Bytes → Leased → Option (Bytes × ℕ) → ℕ × Leased
renewed n k w none = (0, w)
renewed n k w (some (v, left)) =
    (1, if ltb_ℤ (pos 0) n then write k (some (v, pos_part n * second)) w else write k none w)

abbrev taken : Bytes → Bytes → ℤ → Leased → Option (Bytes × ℕ) → Bool × Leased
taken k v d w none = (true, write k (some (v, pos_part d)) w)
taken k v d w (some e) = (false, w)

abbrev removed : Bytes → Leased → Option (Bytes × ℕ) → ℕ × Leased
removed k w none = (0, w)
removed k w (some e) = (1, write k none w)

abbrev pub leases : RedisServer Leased
leases = record {
  get = λ k w. value (w k);
  set_nx = λ k v d w. taken k v d w (w k);
  del = λ k w. removed k w (w k);
  expire = λ k n w. renewed n k w (w k);
  expire_after = λ k d w. w;
  zadd = λ k sc m w. w;
  zrange_by_score = λ k lo hi w. [];
  send = λ A f w. (ok (f w).0, (f w).1);
}

renewed_value :
    (k j v : Bytes) (n : ℤ) (left : ℕ) (w : Leased)
    → w k ≡ some (v, left)
    → value (write k (some (v, pos_part n * second)) w j) ≡ value (w j)
renewed_value k j v n left w here = elim (Bool-cases (bytes_eq k j)) [
  | inl same ↦ rw same (sym (ap value (ap w (sym (bytes_eq→eq k j same)) ∙ here)))
  | inr other ↦ rw other
]

expire_value :
    (k j : Bytes) (n : ℤ) (w : Leased) {u : Bytes}
    → value (w k) ≡ some u
    → pos 0 <ℤ n
    → ((renewed n k w (w k)).0 ≡ 1) × (value ((renewed n k w (w k)).1 j) ≡ value (w j))
expire_value k j n w held positive = elim (Option-cases (w k)) [
  | inl free ↦ absurd (ground arith)
  | inr ((v, left), here) ↦ rw here (refl, ground (arith, renewed_value k j v n left w here))
]

pub leases-IsRedis : IsRedis leases
leases-IsRedis = record {
  set_nx_free = λ k v d w free. (ground arith, λ j. ground arith);
  set_nx_held = λ k v d w held. ground arith;
  del_held = λ k w held. (ground arith, λ j. ground arith);
  expire_held = λ k n w held positive.
      ((expire_value k k n w held positive).0, λ j. (expire_value k j n w held positive).1);
  sends = λ A f w. inl refl;
}

pub left_renewed :
    (k : Bytes) (n : ℤ) (w : Leased) {u : Bytes}
    → value (w k) ≡ some u
    → pos 0 <ℤ n
    → left_of ((renewed n k w (w k)).1 k) ≡ pos_part n * second
left_renewed k n w held positive = elim (Option-cases (w k)) [
  | inl free ↦ absurd (ground arith)
  | inr ((v, left), here) ↦ rw here (ground (arith, bytes_eq_refl k))
]

pub older-value :
    (d : ℕ) (e : Option (Bytes × ℕ)) {u : Bytes}
    → value e ≡ some u
    → d < left_of e
    → (value (older d e) ≡ some u) × (left_of (older d e) ≡ left_of e - d)
older-value d none held lasts = absurd (ground arith)
older-value d (some (v, left)) held lasts = ground arith

abbrev pub has_leases : HasLeases leases
has_leases = record {
  ttl = λ k w. left_of (w k);
  passes = λ d w k. older d (w k);
  ttl-expire = λ k n w held positive. left_renewed k n w held positive;
  passes_keeps = λ k d w held lasts. older-value d (w k) held lasts;
}

abbrev dog : RedisLock
dog =
    new_redis_lock (codes "enable_timer_lock_shop") (7 ∷ [])
      (with_expire_seconds (pos 30) ∷ with_watch_dog_mode ∷ [])

abbrev mine : Leased
mine = write (codes "enable_timer_lock_shop") (some (7 ∷ [], 30 * second)) (λ k. none)

-- Four periods of ten seconds, longer than the life of the lock.
abbrev periods : List ((Leased → Leased) × Bool)
periods =
    (has_leases.passes (10 * second), false)
    ∷ (has_leases.passes (9 * second), false)
    ∷ (has_leases.passes (10 * second), false)
    ∷ (has_leases.passes (10 * second), true)
    ∷ []

dog_life : pos_part dog.watch_dog_work_step_time ≡ 10 * second
unfolding new_redis_lock repair_lock apply_all with_expire_seconds with_watch_dog_mode to_int64
    quot_ℤ
dog_life = refl

watch_dog_keeps_lock_example : Owns leases dog (run_watch_dog leases periods dog mine).1
unfolding new_redis_lock apply_all with_expire_seconds with_watch_dog_mode repair_lock
watch_dog_keeps_lock_example =
    watch_dog_keeps_lock leases leases-IsRedis has_leases dog periods mine
      (repair_lock-IsRepaired
        (apply_all (with_expire_seconds (pos 30) ∷ with_watch_dog_mode ∷ []) no_options))
      refl (omega arith) (λ A f w. refl)
      (
        passes-IsPeriod leases leases-IsRedis has_leases dog (10 * second) false
            (omega (arith, dog_life)),
        (
          passes-IsPeriod leases leases-IsRedis has_leases dog (9 * second) false
              (omega (arith, dog_life)),
          (
            passes-IsPeriod leases leases-IsRedis has_leases dog (10 * second) false
                (omega (arith, dog_life)),
            (
              passes-IsPeriod leases leases-IsRedis has_leases dog (10 * second) true
                  (omega (arith, dog_life)),
              tt,
            ),
          ),
        ),
      )
      refl (omega (arith, dog_life))

abbrev ours : Slice
ours = record { at = t0; bucket_id = pos 2 }

abbrev triggers : Bytes → Exec Leased (Unit {0}) → Exec Leased (Unit {0})
triggers key ack_slice w = (ok tt, λ k. none)

abbrev worker : Bytes → RedisLock
worker token = slice_locker leases shanghai shipped triggers token ours

abbrev won : Leased
won = write (worker (7 ∷ [])).key (some ((worker (7 ∷ [])).token, 70 * second)) (λ k. none)

-- Two minutes in which two workers take the slice up.
abbrev two_minutes : List Move
two_minutes = waits (59 * second) ∷ takes (8 ∷ []) ∷ waits (61 * second) ∷ takes (9 ∷ []) ∷ []

won-Owns : Owns leases (worker (7 ∷ [])) won
won-Owns = rw (bytes_eq_refl (worker (7 ∷ [])).key)

acknowledged_once_example :
    moved leases has_leases shanghai shipped triggers ours two_minutes
      (ack leases shanghai shipped triggers (worker (7 ∷ [])) won).1
    ≡ idled leases has_leases shanghai shipped triggers ours two_minutes
        (ack leases shanghai shipped triggers (worker (7 ∷ [])) won).1
acknowledged_once_example =
    acknowledged_once leases has_leases shanghai shipped triggers ours leases-IsRedis (7 ∷ [])
      two_minutes won (omega arith) won-Owns refl (omega arith)
