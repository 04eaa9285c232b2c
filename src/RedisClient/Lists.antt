-- ===== src/RedisClient/Lists.antt =====
-- pkg/cache/redis-cli.go: the methods on lists.
use codewave_timer.Base.{List, [], Bytes, ℤ, negsuc}
use codewave_timer.RedisClient.Conn.{Cmd, Method, answer}

-- The commands of go-redis.
pub record ListCommands (S : Type 0) : Type 0 where
  pub lpush : Bytes → (List Bytes) → Cmd S ℤ
  pub rpush : Bytes → (List Bytes) → Cmd S ℤ
  pub lpop : Bytes → Cmd S Bytes
  pub rpop : Bytes → Cmd S Bytes
  pub llen : Bytes → Cmd S ℤ
  pub ltrim : Bytes → ℤ → ℤ → Cmd S Bytes
  pub lrange : Bytes → ℤ → ℤ → Cmd S (List Bytes)
  pub lindex : Bytes → ℤ → Cmd S Bytes

module _ {S : Type 0} (c : ListCommands S) where
  -- LPush
  unfoldable pub l_push : Bytes → List Bytes → Method S ℤ
  l_push key value = answer (negsuc 0) (c.lpush key value)

  -- RPush
  unfoldable pub r_push : Bytes → List Bytes → Method S ℤ
  r_push key value = answer (negsuc 0) (c.rpush key value)

  -- LPop
  unfoldable pub l_pop : Bytes → Method S Bytes
  l_pop key = answer [] (c.lpop key)

  -- RPop
  unfoldable pub r_pop : Bytes → Method S Bytes
  r_pop key = answer [] (c.rpop key)

  -- LLen
  unfoldable pub l_len : Bytes → Method S ℤ
  l_len key = answer (negsuc 0) (c.llen key)

  -- LTrim
  unfoldable pub l_trim : Bytes → ℤ → ℤ → Method S Bytes
  l_trim key start stop = answer [] (c.ltrim key start stop)

  -- LRange
  unfoldable pub l_range : Bytes → ℤ → ℤ → Method S (List Bytes)
  l_range key start stop = answer [] (c.lrange key start stop)

  -- LIndex
  unfoldable pub l_index : Bytes → ℤ → Method S Bytes
  l_index key index = answer [] (c.lindex key index)
