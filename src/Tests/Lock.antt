-- ===== src/Tests/Lock.antt =====
-- Two clients of one lock on the server of the tests.
use codewave_timer.Base.{
  Error, ℕ, ◌≡◌, refl, arith, Bool, true, false, List, [], ◌∷◌, none, some, codes, Bytes, bytes_eq,
  if◌then◌else◌, pos, ok, Error, lock_acquired_by_others,
}
use codewave_timer.Lock.Options.{
  LockOptions, RedisLock, with_block, with_expire_seconds, with_watch_dog_mode, apply_all,
  repair_lock, new_redis_lock, no_options, IsRepaired, repair_lock-IsRepaired,
}
use codewave_timer.Lock.Client.{lua_check_and_delete, try_lock, unlock, watch_dog}
use codewave_timer.Lock.Blocking.{
  Tick, timed_out, attempts, shared, lock, single_flight_lock, first_attempt,
}
use codewave_timer.Lock.Owner.{Owns, lock-Owns, single_flight_lock_unsound, with_dog}
use codewave_timer.Lock.Release.{unlock_foreign, unlock_frees}
use codewave_timer.Lock.Waiting.{retries, lock_acquires}
use codewave_timer.Lock.Mutex.{mark, Reach, start, later, wins, loses, releases, mutual_exclusion}
use codewave_timer.Tests.Server.{World, empty, server, server-IsRedis}

abbrev opts : List (LockOptions → LockOptions)
opts = with_block ∷ with_expire_seconds (pos 30) ∷ with_watch_dog_mode ∷ []

-- The lock of client `i`.
abbrev client : ℕ → RedisLock
client i = new_redis_lock (codes "enable_timer_lock_shop") (i ∷ []) opts

abbrev first_taken : World
first_taken = (try_lock server (client 1) empty).1

lock-Owns_example : Owns server (client 1) (lock server (client 1) [] empty).1
unfolding lock first_attempt try_lock watch_dog new_redis_lock apply_all with_block
    with_expire_seconds with_watch_dog_mode repair_lock
lock-Owns_example = lock-Owns server server-IsRedis (client 1) [] empty refl

single_flight_lock_example :
    ((single_flight_lock server (client 2) ((attempts (λ w'. w'), shared) ∷ []) first_taken).0
      ≡ ok (with_dog (client 2)))
    × (server.get
          (client 2).key
          (single_flight_lock server (client 2) ((attempts (λ w'. w'), shared) ∷ []) first_taken).1
        ≡ some (1 ∷ []))
unfolding new_redis_lock try_lock apply_all with_block with_expire_seconds with_watch_dog_mode
    repair_lock
single_flight_lock_example =
    single_flight_lock_unsound server server-IsRedis (client 2) shared first_taken (1 ∷ [])
      (λ e. cc) refl refl refl refl

unlock_foreign_example :
    ((unlock server (client 2) first_taken).1 ≡ first_taken)
    × ((e : Error) × (r' : RedisLock) × ((unlock server (client 2) first_taken).0
          ≡ ok (some e, r')))
unfolding new_redis_lock try_lock
unlock_foreign_example =
    unlock_foreign server server-IsRedis (client 2) first_taken (λ e. ground arith)

unlock_frees_example :
    Owns server (client 1) first_taken
    × ((j : Bytes)
        → server.get j (unlock server (client 1) first_taken).1
          ≡ (if bytes_eq (client 1).key j then none else server.get j first_taken))
unfolding unlock new_redis_lock try_lock lua_check_and_delete
unlock_frees_example = unlock_frees server server-IsRedis (client 1) first_taken refl

repair_lock-IsRepaired_example : IsRepaired (repair_lock (apply_all opts no_options))
repair_lock-IsRepaired_example = repair_lock-IsRepaired (apply_all opts no_options)

abbrev freed : World
freed = (unlock server (client 1) first_taken).1

abbrev holders : ℕ → Bool
holders = mark (mark (mark (λ i. false) 1 true) 1 false) 2 true

-- Client 1 wins, client 2 fails to, client 1 releases the lock and client 2 wins it.
handover :
    Reach server client empty
      (record { world = (try_lock server (client 2) freed).1; holds = holders })
unfolding new_redis_lock try_lock unlock lua_check_and_delete
handover =
    later
      (later (later (later start (wins 1 refl)) (loses 2 lock_acquired_by_others refl))
        (releases 1))
      (wins 2 refl)

token_inj : (i j : ℕ) → (client i).token ≡ (client j).token → i ≡ j
unfolding new_redis_lock
token_inj i j e = ground arith

abbrev winner : ℕ
winner = 2

mutual_exclusion_example : winner ≡ winner
unfolding new_redis_lock
mutual_exclusion_example =
    mutual_exclusion server client server-IsRedis (codes "enable_timer_lock_shop") (λ i. refl)
      token_inj handover winner winner refl refl

abbrev unlocks : World → World
unlocks w = (unlock server (client 1) w).1

-- Client 2 waits for client 1, which releases the lock before the second tick.
abbrev waiting : List (Tick World)
waiting = retries ((λ w. w) ∷ []) (attempts unlocks ∷ timed_out ∷ [])

lock_acquires_example :
    ((lock server (client 2) waiting first_taken).0 ≡ ok (with_dog (client 2)))
    × Owns server (client 2) (lock server (client 2) waiting first_taken).1
unfolding new_redis_lock try_lock unlock lua_check_and_delete apply_all with_block
    with_expire_seconds with_watch_dog_mode repair_lock
lock_acquires_example =
    lock_acquires server server-IsRedis (λ A f w. refl) (client 2) refl ((λ w. w) ∷ []) unlocks
      (timed_out ∷ []) first_taken refl refl
