-- ===== src/RedisClient/Sets.antt =====
-- pkg/cache/redis-cli.go: the methods on sets.
use codewave_timer.Base.{ℕ, Bool, false, List, [], Bytes, Option, none, some, ℤ, negsuc, Error}
use codewave_timer.RedisClient.Conn.{Cmd, Method, answer, answer_by}

-- The commands of go-redis.
pub record SetCommands (S : Type 0) : Type 0 where
  pub sadd : Bytes → (List Bytes) → Cmd S ℤ
  pub spop : Bytes → Cmd S Bytes
  pub srem : Bytes → (List Bytes) → Cmd S ℤ
  pub sismember : Bytes → Bytes → Cmd S Bool
  pub smembers : Bytes → Cmd S (List Bytes)
  pub sinter : (List Bytes) → Cmd S (List Bytes)
  pub sunion : (List Bytes) → Cmd S (List Bytes)
  pub sdiff : (List Bytes) → Cmd S (List Bytes)
  pub scard : Bytes → Cmd S ℤ
  pub sscan : Bytes → ℕ → Bytes → ℤ → Cmd S (List Bytes × ℕ)

-- The cursor of the reply is returned with an error too.
abbrev pub scan_reply : (List Bytes × ℕ) × Option Error → (List Bytes × ℕ) × Option Error
scan_reply ((ret, cursor), none) = ((ret, cursor), none)
scan_reply ((ret, cursor), some e) = (([], cursor), some e)

module _ {S : Type 0} (c : SetCommands S) where
  -- SAdd
  unfoldable pub s_add : Bytes → List Bytes → Method S ℤ
  s_add key value = answer (negsuc 0) (c.sadd key value)

  -- SPop
  unfoldable pub s_pop : Bytes → Method S Bytes
  s_pop key = answer [] (c.spop key)

  -- SRem
  unfoldable pub s_rem : Bytes → List Bytes → Method S ℤ
  s_rem key value = answer (negsuc 0) (c.srem key value)

  -- SIsMember
  unfoldable pub s_is_member : Bytes → Bytes → Method S Bool
  s_is_member key value = answer false (c.sismember key value)

  -- SMembers
  unfoldable pub s_members : Bytes → Method S (List Bytes)
  s_members key = answer [] (c.smembers key)

  -- SInter
  unfoldable pub s_inter : List Bytes → Method S (List Bytes)
  s_inter key = answer [] (c.sinter key)

  -- SUnion
  unfoldable pub s_union : List Bytes → Method S (List Bytes)
  s_union key = answer [] (c.sunion key)

  -- SDiff
  unfoldable pub s_diff : List Bytes → Method S (List Bytes)
  s_diff key = answer [] (c.sdiff key)

  -- SCard
  unfoldable pub s_card : Bytes → Method S ℤ
  s_card key = answer (negsuc 0) (c.scard key)

  -- SScan
  unfoldable pub s_scan : Bytes → ℕ → Bytes → ℤ → Method S (List Bytes × ℕ)
  s_scan key cursor match count = answer_by scan_reply (c.sscan key cursor match count)
