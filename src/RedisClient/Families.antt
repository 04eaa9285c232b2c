-- ===== src/RedisClient/Families.antt =====
-- Every method of pkg/cache/redis-cli.go that relays a reply, family by family.
use codewave_timer.Base.{ℕ, List, Bytes, ℤ, true, none, some, ◌≡◌, refl, Error, Option}
use codewave_timer.RedisClient.Conn.{RedisState, TextMap}
use codewave_timer.RedisClient.Relays.{
  Relays, answer-Relays, answer_by-Relays, reply_error, result-Relays,
}
use codewave_timer.RedisClient.Strings.{
  KeyCommands, incr_by, incr, decr, decr_by, set_text, eval_results, delete, ttl, rename,
}
use codewave_timer.RedisClient.Sets.{
  SetCommands, scan_reply, s_add, s_pop, s_rem, s_is_member, s_members, s_inter, s_union, s_diff,
  s_card, s_scan,
}
use codewave_timer.RedisClient.Hashes.{
  HashCommands, h_get, h_set, hm_set, h_keys, h_len, h_del, h_exists, h_get_all, h_incr_by,
  h_incr_by_float,
}
use codewave_timer.RedisClient.Lists.{
  ListCommands, l_push, r_push, l_pop, r_pop, l_len, l_trim, l_range, l_index,
}
use codewave_timer.RedisClient.SortedSets.{
  SortedSetCommands, z_add, z_rem, z_card, z_range, z_rev_range, z_score, z_rank, z_rev_rank,
  z_rev_range_by_score,
}
use codewave_timer.RedisClient.Bloom.{
  BloomCommands, bf_add, bf_exists, bfm_add, bfm_exists, bf_reserve,
}

scan_error : (r : (List Bytes × ℕ) × Option Error) → (scan_reply r).1 ≡ r.1
scan_error ((ret, cursor), none) = refl
scan_error ((ret, cursor), some e) = refl

module _ {S Value : Type 0} (c : KeyCommands S Value) (w : RedisState S) where
  abbrev pub KeysRelay : Type 0
  KeysRelay =
      ((key : Bytes) (count : ℤ) → Relays w (incr_by c key count) (c.incrby key count))
      × ((key : Bytes) → Relays w (incr c key) (c.incr key))
      × ((key : Bytes) → Relays w (decr c key) (c.decr key))
      × ((key : Bytes) (count : ℤ) → Relays w (decr_by c key count) (c.decrby key count))
      × ((key : Bytes) (value : Bytes) (expire_time : ℤ)
          → Relays w (set_text c key value expire_time) (c.set key value expire_time))
      × ((script : Bytes) (keys : List Bytes) (args : List Value)
          → Relays w (eval_results c script keys args) (c.eval script keys args))
      × ((key : Bytes) → Relays w (delete c key) (c.del key))
      × ((key : Bytes) → Relays w (ttl c key) (c.ttl key))
      × ((key : Bytes) (new_key : Bytes) → Relays w (rename c key new_key) (c.rename key new_key))

  pub keys-KeysRelay : w.connected ≡ true → KeysRelay
  unfolding incr_by incr decr decr_by set_text eval_results delete ttl rename
  keys-KeysRelay h = (
    λ key count. answer-Relays w (c.incrby key count) h _,
    λ key. answer_by-Relays w _ (c.incr key) h (reply_error _ _),
    λ key. answer_by-Relays w _ (c.decr key) h (reply_error _ _),
    λ key count. answer-Relays w (c.decrby key count) h _,
    λ key value expire_time. answer_by-Relays w _ (c.set key value expire_time) h (λ r. refl),
    λ script keys args. result-Relays w (c.eval script keys args) h,
    λ key. answer_by-Relays w _ (c.del key) h (λ r. refl),
    λ key. answer_by-Relays w _ (c.ttl key) h (reply_error _ _),
    λ key new_key. answer_by-Relays w _ (c.rename key new_key) h (reply_error _ _),
  )

module _ {S : Type 0} (c : SetCommands S) (w : RedisState S) where
  abbrev pub SetsRelay : Type 0
  SetsRelay =
      ((key : Bytes) (value : List Bytes) → Relays w (s_add c key value) (c.sadd key value))
      × ((key : Bytes) → Relays w (s_pop c key) (c.spop key))
      × ((key : Bytes) (value : List Bytes) → Relays w (s_rem c key value) (c.srem key value))
      × ((key : Bytes) (value : Bytes) → Relays w (s_is_member c key value) (c.sismember key value))
      × ((key : Bytes) → Relays w (s_members c key) (c.smembers key))
      × ((key : List Bytes) → Relays w (s_inter c key) (c.sinter key))
      × ((key : List Bytes) → Relays w (s_union c key) (c.sunion key))
      × ((key : List Bytes) → Relays w (s_diff c key) (c.sdiff key))
      × ((key : Bytes) → Relays w (s_card c key) (c.scard key))
      × ((key : Bytes) (cursor : ℕ) (match : Bytes) (count : ℤ)
          → Relays w (s_scan c key cursor match count) (c.sscan key cursor match count))

  pub sets-SetsRelay : w.connected ≡ true → SetsRelay
  unfolding s_add s_pop s_rem s_is_member s_members s_inter s_union s_diff s_card s_scan
  sets-SetsRelay h = (
    λ key value. answer-Relays w (c.sadd key value) h _,
    λ key. answer-Relays w (c.spop key) h _,
    λ key value. answer-Relays w (c.srem key value) h _,
    λ key value. answer-Relays w (c.sismember key value) h _,
    λ key. answer-Relays w (c.smembers key) h _,
    λ key. answer-Relays w (c.sinter key) h _,
    λ key. answer-Relays w (c.sunion key) h _,
    λ key. answer-Relays w (c.sdiff key) h _,
    λ key. answer-Relays w (c.scard key) h _,
    λ key cursor match count. answer_by-Relays w _ (c.sscan key cursor match count) h scan_error,
  )

module _ {S Value Float : Type 0} (c : HashCommands S Value Float) (minus_one : Float)
    (w : RedisState S) where
  abbrev pub HashesRelay : Type 0
  HashesRelay =
      ((key : Bytes) (field : Bytes) → Relays w (h_get c key field) (c.hget key field))
      × ((key : Bytes) (field : Bytes) (value : Value)
          → Relays w (h_set c key field value) (c.hset key field value))
      × ((key : Bytes) (value : TextMap) → Relays w (hm_set c key value) (c.hmset key value))
      × ((key : Bytes) → Relays w (h_keys c key) (c.hkeys key))
      × ((key : Bytes) → Relays w (h_len c key) (c.hlen key))
      × ((key : Bytes) (fields : List Bytes) → Relays w (h_del c key fields) (c.hdel key fields))
      × ((key : Bytes) (field : Bytes) → Relays w (h_exists c key field) (c.hexists key field))
      × ((key : Bytes) → Relays w (h_get_all c key) (c.hgetall key))
      × ((key : Bytes) (field : Bytes) (value : ℤ)
          → Relays w (h_incr_by c key field value) (c.hincrby key field value))
      × ((key : Bytes) (field : Bytes) (value : Float)
          → Relays w (h_incr_by_float c minus_one key field value) (c.hincrbyfloat key field value))

  pub hashes-HashesRelay : w.connected ≡ true → HashesRelay
  unfolding h_get h_set hm_set h_keys h_len h_del h_exists h_get_all h_incr_by h_incr_by_float
  hashes-HashesRelay h = (
    λ key field. answer-Relays w (c.hget key field) h _,
    λ key field value. answer-Relays w (c.hset key field value) h _,
    λ key value. answer-Relays w (c.hmset key value) h _,
    λ key. answer-Relays w (c.hkeys key) h _,
    λ key. answer-Relays w (c.hlen key) h _,
    λ key fields. answer-Relays w (c.hdel key fields) h _,
    λ key field. answer-Relays w (c.hexists key field) h _,
    λ key. answer-Relays w (c.hgetall key) h _,
    λ key field value. answer-Relays w (c.hincrby key field value) h _,
    λ key field value. answer-Relays w (c.hincrbyfloat key field value) h _,
  )

module _ {S : Type 0} (c : ListCommands S) (w : RedisState S) where
  abbrev pub ListsRelay : Type 0
  ListsRelay =
      ((key : Bytes) (value : List Bytes) → Relays w (l_push c key value) (c.lpush key value))
      × ((key : Bytes) (value : List Bytes) → Relays w (r_push c key value) (c.rpush key value))
      × ((key : Bytes) → Relays w (l_pop c key) (c.lpop key))
      × ((key : Bytes) → Relays w (r_pop c key) (c.rpop key))
      × ((key : Bytes) → Relays w (l_len c key) (c.llen key))
      × ((key : Bytes) (start : ℤ) (stop : ℤ)
          → Relays w (l_trim c key start stop) (c.ltrim key start stop))
      × ((key : Bytes) (start : ℤ) (stop : ℤ)
          → Relays w (l_range c key start stop) (c.lrange key start stop))
      × ((key : Bytes) (index : ℤ) → Relays w (l_index c key index) (c.lindex key index))

  pub lists-ListsRelay : w.connected ≡ true → ListsRelay
  unfolding l_push r_push l_pop r_pop l_len l_trim l_range l_index
  lists-ListsRelay h = (
    λ key value. answer-Relays w (c.lpush key value) h _,
    λ key value. answer-Relays w (c.rpush key value) h _,
    λ key. answer-Relays w (c.lpop key) h _,
    λ key. answer-Relays w (c.rpop key) h _,
    λ key. answer-Relays w (c.llen key) h _,
    λ key start stop. answer-Relays w (c.ltrim key start stop) h _,
    λ key start stop. answer-Relays w (c.lrange key start stop) h _,
    λ key index. answer-Relays w (c.lindex key index) h _,
  )

module _ {S Float : Type 0} (c : SortedSetCommands S Float) (minus_one : Float)
    (w : RedisState S) where
  abbrev pub SortedSetsRelay : Type 0
  SortedSetsRelay =
      ((key : Bytes) (score : Float) (member : Bytes)
        → Relays w (z_add c key score member) (c.zadd key score member))
      × ((key : Bytes) (member : Bytes) → Relays w (z_rem c key member) (c.zrem key member))
      × ((key : Bytes) → Relays w (z_card c key) (c.zcard key))
      × ((key : Bytes) (start : ℤ) (stop : ℤ)
          → Relays w (z_range c key start stop) (c.zrange key start stop))
      × ((key : Bytes) (start : ℤ) (stop : ℤ)
          → Relays w (z_rev_range c key start stop) (c.zrevrange key start stop))
      × ((key : Bytes) (member : Bytes)
          → Relays w (z_score c minus_one key member) (c.zscore key member))
      × ((key : Bytes) (member : Bytes) → Relays w (z_rank c key member) (c.zrank key member))
      × ((key : Bytes) (member : Bytes)
          → Relays w (z_rev_rank c key member) (c.zrevrank key member))
      × ((key : Bytes) (start : Bytes) (stop : Bytes)
          → Relays w (z_rev_range_by_score c key start stop) (c.zrevrangebyscore key stop start))

  pub sorted_sets-SortedSetsRelay : w.connected ≡ true → SortedSetsRelay
  unfolding z_add z_rem z_card z_range z_rev_range z_score z_rank z_rev_rank z_rev_range_by_score
  sorted_sets-SortedSetsRelay h = (
    λ key score member. answer-Relays w (c.zadd key score member) h _,
    λ key member. answer-Relays w (c.zrem key member) h _,
    λ key. answer-Relays w (c.zcard key) h _,
    λ key start stop. answer-Relays w (c.zrange key start stop) h _,
    λ key start stop. answer-Relays w (c.zrevrange key start stop) h _,
    λ key member. answer-Relays w (c.zscore key member) h _,
    λ key member. answer-Relays w (c.zrank key member) h _,
    λ key member. answer-Relays w (c.zrevrank key member) h _,
    λ key start stop. answer-Relays w (c.zrevrangebyscore key stop start) h _,
  )

module _ {S Value Float : Type 0} (c : BloomCommands S Value Float) (w : RedisState S) where
  abbrev pub BloomRelay : Type 0
  BloomRelay =
      ((key : Bytes) (value : Bytes) → Relays w (bf_add c key value) (c.bfadd key value))
      × ((key : Bytes) (value : Bytes) → Relays w (bf_exists c key value) (c.bfexists key value))
      × ((key : Bytes) (values : List Value)
          → Relays w (bfm_add c key values) (c.bfmadd key values))
      × ((key : Bytes) (values : List Value)
          → Relays w (bfm_exists c key values) (c.bfmexists key values))
      × ((key : Bytes) (error_rate : Float) (capacity : ℤ)
          → Relays w (bf_reserve c key error_rate capacity) (c.bfreserve key error_rate capacity))

  pub bloom-BloomRelay : w.connected ≡ true → BloomRelay
  unfolding bf_add bf_exists bfm_add bfm_exists bf_reserve
  bloom-BloomRelay h = (
    λ key value. answer-Relays w (c.bfadd key value) h _,
    λ key value. answer-Relays w (c.bfexists key value) h _,
    λ key values. answer-Relays w (c.bfmadd key values) h _,
    λ key values. answer-Relays w (c.bfmexists key values) h _,
    λ key error_rate capacity. answer-Relays w (c.bfreserve key error_rate capacity) h _,
  )

-- On a client that is connected, each of the 51 methods sends its own command once, gives the
-- connection back, returns, and returns the error of the command.
pub methods_relay :
    {S Value Float : Type 0} (k : KeyCommands S Value) (s : SetCommands S)
    (h : HashCommands S Value Float) (l : ListCommands S) (z : SortedSetCommands S Float)
    (b : BloomCommands S Value Float) (minus_one : Float) (w : RedisState S)
    → w.connected ≡ true
    → KeysRelay k w
      × SetsRelay s w
      × HashesRelay h minus_one w
      × ListsRelay l w
      × SortedSetsRelay z minus_one w
      × BloomRelay b w
methods_relay k s h l z b minus_one w on = (
  keys-KeysRelay k w on,
  sets-SetsRelay s w on,
  hashes-HashesRelay h minus_one w on,
  lists-ListsRelay l w on,
  sorted_sets-SortedSetsRelay z minus_one w on,
  bloom-BloomRelay b w on,
)
