-- ===== src/RedisClient/SortedSets.antt =====
-- pkg/cache/redis-cli.go: the methods on sorted sets.
use codewave_timer.Base.{ℕ, List, [], Bytes, ℤ, negsuc}
use codewave_timer.Exec.{lift, ◌>>=◌}
use codewave_timer.RedisClient.Conn.{Cmd, Method, TextMap, result, with_conn, answer}
use codewave_timer.RedisClient.Replies.{zscan_reply}

-- The commands of go-redis. `Float` the type float64.
pub record SortedSetCommands (S Float : Type 0) : Type 0 where
  pub zadd : Bytes → Float → Bytes → Cmd S ℤ
  pub zrem : Bytes → Bytes → Cmd S ℤ
  pub zcard : Bytes → Cmd S ℤ
  pub zrange : Bytes → ℤ → ℤ → Cmd S (List Bytes)
  pub zrevrange : Bytes → ℤ → ℤ → Cmd S (List Bytes)
  pub zscore : Bytes → Bytes → Cmd S Float
  pub zrank : Bytes → Bytes → Cmd S ℤ
  pub zrevrank : Bytes → Bytes → Cmd S ℤ
  pub zrevrangebyscore : Bytes → Bytes → Bytes → Cmd S (List Bytes)
  pub zscan : Bytes → ℕ → Bytes → ℤ → Cmd S (List Bytes × ℕ)

module _ {S Float : Type 0} (c : SortedSetCommands S Float) where
  -- ZAdd
  unfoldable pub z_add : Bytes → Float → Bytes → Method S ℤ
  z_add key score member = answer (negsuc 0) (c.zadd key score member)

  -- ZRem
  unfoldable pub z_rem : Bytes → Bytes → Method S ℤ
  z_rem key member = answer (negsuc 0) (c.zrem key member)

  -- ZCard
  unfoldable pub z_card : Bytes → Method S ℤ
  z_card key = answer (negsuc 0) (c.zcard key)

  -- ZRange
  unfoldable pub z_range : Bytes → ℤ → ℤ → Method S (List Bytes)
  z_range key start stop = answer [] (c.zrange key start stop)

  -- ZRevRange
  unfoldable pub z_rev_range : Bytes → ℤ → ℤ → Method S (List Bytes)
  z_rev_range key start stop = answer [] (c.zrevrange key start stop)

  -- ZRank
  unfoldable pub z_rank : Bytes → Bytes → Method S ℤ
  z_rank key member = answer (negsuc 0) (c.zrank key member)

  -- ZRevRank
  unfoldable pub z_rev_rank : Bytes → Bytes → Method S ℤ
  z_rev_rank key member = answer (negsuc 0) (c.zrevrank key member)

  -- ZRevRangeByScore. The command takes the least score first.
  unfoldable pub z_rev_range_by_score : Bytes → Bytes → Bytes → Method S (List Bytes)
  z_rev_range_by_score key start stop = answer [] (c.zrevrangebyscore key stop start)

  -- ZScan
  unfoldable pub z_scan : Bytes → ℕ → Bytes → ℤ → Method S (TextMap × ℕ)
  z_scan key cursor match count =
      with_conn (result (c.zscan key cursor match count) >>= λ r. lift (zscan_reply r))

  -- `minus_one` is the float64 -1.
  module _ (minus_one : Float) where
    -- ZScore
    unfoldable pub z_score : Bytes → Bytes → Method S Float
    z_score key member = answer minus_one (c.zscore key member)
