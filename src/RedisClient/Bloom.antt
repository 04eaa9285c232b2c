-- ===== src/RedisClient/Bloom.antt =====
-- pkg/cache/redis-cli.go: the methods on Bloom filters.
use codewave_timer.Base.{Bool, false, List, [], Bytes, ℤ}
use codewave_timer.RedisClient.Conn.{Cmd, Method, answer}

-- The commands of go-redis. `Value` is any Go value, `Float` the type float64.
pub record BloomCommands (S Value Float : Type 0) : Type 0 where
  pub bfadd : Bytes → Bytes → Cmd S Bool
  pub bfexists : Bytes → Bytes → Cmd S Bool
  pub bfmadd : Bytes → (List Value) → Cmd S (List Bool)
  pub bfmexists : Bytes → (List Value) → Cmd S (List Bool)
  pub bfreserve : Bytes → Float → ℤ → Cmd S Bytes

module _ {S Value Float : Type 0} (c : BloomCommands S Value Float) where
  -- BFAdd
  unfoldable pub bf_add : Bytes → Bytes → Method S Bool
  bf_add key value = answer false (c.bfadd key value)

  -- BFExists
  unfoldable pub bf_exists : Bytes → Bytes → Method S Bool
  bf_exists key value = answer false (c.bfexists key value)

  -- BFMAdd
  unfoldable pub bfm_add : Bytes → List Value → Method S (List Bool)
  bfm_add key values = answer [] (c.bfmadd key values)

  -- BFMExists
  unfoldable pub bfm_exists : Bytes → List Value → Method S (List Bool)
  bfm_exists key values = answer [] (c.bfmexists key values)

  -- BFReserve
  unfoldable pub bf_reserve : Bytes → Float → ℤ → Method S Bytes
  bf_reserve key error_rate capacity = answer [] (c.bfreserve key error_rate capacity)
