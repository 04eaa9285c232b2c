-- ===== src/RedisClient/Hashes.antt =====
-- pkg/cache/redis-cli.go: the methods on hashes.
use codewave_timer.Base.{ℕ, Bool, false, List, [], Bytes, Option, ℤ, negsuc}
use codewave_timer.Exec.{lift, ◌>>=◌}
use codewave_timer.RedisClient.Conn.{Cmd, Method, TextMap, result, with_conn, answer}
use codewave_timer.RedisClient.Replies.{no_texts, hm_get_reply, hscan_reply}

-- The commands of go-redis. `Value` is any Go value, `Float` the type float64.
pub record HashCommands (S Value Float : Type 0) : Type 0 where
  pub hget : Bytes → Bytes → Cmd S Bytes
  pub hset : Bytes → Bytes → Value → Cmd S ℤ
  pub hmset : Bytes → TextMap → Cmd S Bool
  pub hmget : Bytes → (List Bytes) → Cmd S (List (Option Bytes))
  pub hkeys : Bytes → Cmd S (List Bytes)
  pub hlen : Bytes → Cmd S ℤ
  pub hdel : Bytes → (List Bytes) → Cmd S ℤ
  pub hexists : Bytes → Bytes → Cmd S Bool
  pub hgetall : Bytes → Cmd S TextMap
  pub hscan : Bytes → ℕ → Bytes → ℤ → Cmd S (List Bytes × ℕ)
  pub hincrby : Bytes → Bytes → ℤ → Cmd S ℤ
  pub hincrbyfloat : Bytes → Bytes → Float → Cmd S Float

module _ {S Value Float : Type 0} (c : HashCommands S Value Float) where
  -- HGet
  unfoldable pub h_get : Bytes → Bytes → Method S Bytes
  h_get key field = answer [] (c.hget key field)

  -- HSet
  unfoldable pub h_set : Bytes → Bytes → Value → Method S ℤ
  h_set key field value = answer (negsuc 0) (c.hset key field value)

  -- HMSet
  unfoldable pub hm_set : Bytes → TextMap → Method S Bool
  hm_set key value = answer false (c.hmset key value)

  -- HMGet
  unfoldable pub hm_get : Bytes → List Bytes → Method S (List Bytes)
  hm_get key fields = with_conn (result (c.hmget key fields) >>= λ r. lift (hm_get_reply r))

  -- HKeys
  unfoldable pub h_keys : Bytes → Method S (List Bytes)
  h_keys key = answer [] (c.hkeys key)

  -- HLen
  unfoldable pub h_len : Bytes → Method S ℤ
  h_len key = answer (negsuc 0) (c.hlen key)

  -- HDel
  unfoldable pub h_del : Bytes → List Bytes → Method S ℤ
  h_del key fields = answer (negsuc 0) (c.hdel key fields)

  -- HExists
  unfoldable pub h_exists : Bytes → Bytes → Method S Bool
  h_exists key field = answer false (c.hexists key field)

  -- HGetAll
  unfoldable pub h_get_all : Bytes → Method S TextMap
  h_get_all key = answer no_texts (c.hgetall key)

  -- HScan
  unfoldable pub h_scan : Bytes → ℕ → Bytes → ℤ → Method S (TextMap × ℕ)
  h_scan key cursor match count =
      with_conn (result (c.hscan key cursor match count) >>= λ r. lift (hscan_reply r))

  -- HIncrBy
  unfoldable pub h_incr_by : Bytes → Bytes → ℤ → Method S ℤ
  h_incr_by key field value = answer (negsuc 0) (c.hincrby key field value)

  -- `minus_one` is the float64 -1.
  module _ (minus_one : Float) where
    -- HIncrByFloat
    unfoldable pub h_incr_by_float : Bytes → Bytes → Float → Method S Float
    h_incr_by_float key field value = answer minus_one (c.hincrbyfloat key field value)
