-- ===== src/Redis.antt =====
-- The redis server and go-redis, a parameter, and the methods of pkg/cache/redis-cli.go over it that
-- the program calls. `get`, `set_nx` and the others are commands as the server runs them; `send`
-- carries a request to it.
use codewave_timer.Base.{
  ℕ, ◌≡◌, ◌⊎◌, ◌↔◌, Bool, true, false, not, ◌&&◌, Has, List, Option, none, some, Bytes, bytes_eq,
  ◌==◌, if◌then◌else◌, ℤ, pos, ◌<ℤ◌, ◌≤ℤ◌, ok, err, Error,
}
use codewave_timer.Exec.{Exec, pure, ◌>>=◌}

pub record RedisServer (W : Type 0) : Type 1 where
  pub get : Bytes → W → Option Bytes
  pub set_nx : Bytes → Bytes → ℤ → W → Bool × W
  pub del : Bytes → W → ℕ × W
  pub expire : Bytes → ℤ → W → ℕ × W
  pub expire_after : Bytes → ℤ → W → W  -- EXPIRE by a time.Duration
  pub zadd : Bytes → ℤ → Bytes → W → W
  pub zrange_by_score : Bytes → ℤ → ℤ → W → List Bytes
  pub send : (A : Type 0) → (W → A × W) → Exec W A

-- The documented behaviour that the lock relies on. A request that ends in an error has been run or
-- not; a key that exists may be given a positive time to live.
pub record IsRedis {W : Type 0} (s : RedisServer W) : Type 1 where
  pub set_nx_free :
      (k v : Bytes) (ttl : ℤ) (w : W)
      → s.get k w ≡ none
      → ((s.set_nx k v ttl w).0 ≡ true)
        × ((j : Bytes)
            → s.get j (s.set_nx k v ttl w).1 ≡ (if bytes_eq k j then some v else s.get j w))
  pub set_nx_held :
      (k v : Bytes) (ttl : ℤ) (w : W) {u : Bytes}
      → s.get k w ≡ some u
      → s.set_nx k v ttl w ≡ (false, w)
  pub del_held :
      (k : Bytes) (w : W) {u : Bytes}
      → s.get k w ≡ some u
      → ((s.del k w).0 ≡ 1)
        × ((j : Bytes) → s.get j (s.del k w).1 ≡ (if bytes_eq k j then none else s.get j w))
  pub expire_held :
      (k : Bytes) (ttl : ℤ) (w : W) {u : Bytes}
      → s.get k w ≡ some u
      → pos 0 <ℤ ttl
      → ((s.expire k ttl w).0 ≡ 1) × ((j : Bytes) → s.get j (s.expire k ttl w).1 ≡ s.get j w)
  pub sends :
      (A : Type 0) (f : W → A × W) (w : W)
      → (s.send A f w ≡ (ok (f w).0, (f w).1))
        ⊎ ((e : Error) × ((s.send A f w ≡ (err e, w)) ⊎ (s.send A f w ≡ (err e, (f w).1))))

-- The documented behaviour of sorted sets that the tasks rely on.
pub record HasSortedSets {W : Type 0} (s : RedisServer W) : Type 1 where
  pub score : Bytes → Bytes → W → Option ℤ  -- ZSCORE
  pub score-zadd :
      (key member : Bytes) (sc : ℤ) (k m : Bytes) (w : W)
      → score k m (s.zadd key sc member w)
        ≡ (if bytes_eq key k && bytes_eq member m then some sc else score k m w)
  pub score-expire_after :
      (key : Bytes) (d : ℤ) (k m : Bytes) (w : W)
      → pos 0 <ℤ d
      → score k m (s.expire_after key d w) ≡ score k m w
  pub zrange_by_score_iff :
      (key : Bytes) (lo hi : ℤ) (m : Bytes) (w : W)
      → Has m (s.zrange_by_score key lo hi w)
        ↔ ((sc : ℤ) × (score key m w ≡ some sc) × (lo ≤ℤ sc) × (sc ≤ℤ hi))

module _ {W : Type 0} (s : RedisServer W) where
  -- SetNX
  unfoldable pub client_set_nx : Bytes → Bytes → ℤ → Exec W Bool
  client_set_nx key value expire_time = s.send Bool (s.set_nx key value expire_time)

  -- EvalBool: go-redis reads a number as true unless it is 0.
  unfoldable pub eval_bool : (W → ℕ × W) → Exec W Bool
  eval_bool script = s.send ℕ script >>= λ n. pure (not (n == 0))

  -- ZRangeByScore
  unfoldable pub client_zrange_by_score : Bytes → ℤ → ℤ → Exec W (List Bytes)
  client_zrange_by_score key start stop =
      s.send (List Bytes) (λ w. (s.zrange_by_score key start stop w, w))

  -- Pipeline: the commands are queued by `pipe_func` and sent together.
  unfoldable pub pipeline : (W → W) → Exec W (Unit {0})
  pipeline commands = s.send (Unit {0}) (λ w. (tt, commands w))
