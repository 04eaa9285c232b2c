-- ===== src/Tests/RedisClient.antt =====
-- A server that counts the commands it has run, and the theorems of the redis client on it.
use codewave_timer.Base.{
  quot_ℤ, ℕ, ◌+◌, ◌*◌, ◌≡◌, refl, [], ◌∷◌, Bytes, codes, none, some, pos, Bool, true, false, ok,
  panic, Error, foreign, ◌==◌,
}
use codewave_timer.GoLib.Clock.{second}
use codewave_timer.RedisClient.Conn.{
  RedisState, Cmd, TextMap, result, with_conn, close_conn, new_options, apply_options, with_addr,
  with_db,
}
use codewave_timer.RedisClient.Relays.{relayed}
use codewave_timer.RedisClient.Replies.{all_texts, hm_get_reply}
use codewave_timer.RedisClient.ReplyLaws.{HmGetOutcome, last_value}
use codewave_timer.RedisClient.Strings.{KeyCommands, ttl}
use codewave_timer.RedisClient.Sets.{SetCommands}
use codewave_timer.RedisClient.Hashes.{HashCommands, hm_get, h_scan}
use codewave_timer.RedisClient.Lists.{ListCommands}
use codewave_timer.RedisClient.SortedSets.{SortedSetCommands}
use codewave_timer.RedisClient.Bloom.{BloomCommands}
use codewave_timer.RedisClient.Families.{
  methods_relay, KeysRelay, SetsRelay, HashesRelay, ListsRelay, SortedSetsRelay, BloomRelay,
}
use codewave_timer.RedisClient.Converted.{hm_get_outcome, h_scan_pairs}

-- The command is run, and replies `a` or refuses.
abbrev gives : {A : Type 0} → A → Cmd ℕ A
gives a s = ((a, none), s + 1)

abbrev refuses : {A : Type 0} → A → Cmd ℕ A
refuses a s = ((a, some (foreign 7)), s + 1)

abbrev one : Bytes
one = codes "1"

abbrev keys : KeyCommands ℕ ℕ
keys = record {
  incrby = λ k n. gives n;
  incr = λ k. gives (pos 1);
  decr = λ k. refuses (pos 0);
  decrby = λ k n. gives n;
  set = λ k v d. gives one;
  exists = λ k. gives (pos 1);
  eval = λ s k a. gives 1;
  get = λ k. refuses [];
  del = λ k. gives (pos 1);
  ttl = λ k. gives (pos (3 * second));
  expire = λ k d. gives true;
  rename = λ k j. refuses [];
}

abbrev sets : SetCommands ℕ
sets = record {
  sadd = λ k v. gives (pos 1);
  spop = λ k. gives one;
  srem = λ k v. refuses (pos 0);
  sismember = λ k v. gives true;
  smembers = λ k. gives (one ∷ []);
  sinter = λ k. gives [];
  sunion = λ k. gives (one ∷ []);
  sdiff = λ k. gives [];
  scard = λ k. gives (pos 1);
  sscan = λ k c m n. refuses ([], 5);
}

abbrev hashes : HashCommands ℕ ℕ ℕ
hashes = record {
  hget = λ k f. gives one;
  hset = λ k f v. gives (pos 1);
  hmset = λ k v. gives true;
  hmget = λ k f. gives (some one ∷ none ∷ []);
  hkeys = λ k. gives (one ∷ []);
  hlen = λ k. gives (pos 1);
  hdel = λ k f. refuses (pos 0);
  hexists = λ k f. gives true;
  hgetall = λ k. gives (λ f. none);
  hscan = λ k c m n. gives (one ∷ one ∷ one ∷ codes "2" ∷ [], 0);
  hincrby = λ k f n. gives n;
  hincrbyfloat = λ k f x. gives x;
}

abbrev lists : ListCommands ℕ
lists = record {
  lpush = λ k v. gives (pos 1);
  rpush = λ k v. gives (pos 1);
  lpop = λ k. refuses [];
  rpop = λ k. gives one;
  llen = λ k. gives (pos 1);
  ltrim = λ k a b. gives one;
  lrange = λ k a b. gives (one ∷ []);
  lindex = λ k i. gives one;
}

abbrev sorted_sets : SortedSetCommands ℕ ℕ
sorted_sets = record {
  zadd = λ k s m. gives (pos 1);
  zrem = λ k m. gives (pos 1);
  zcard = λ k. gives (pos 1);
  zrange = λ k a b. gives (one ∷ []);
  zrevrange = λ k a b. gives (one ∷ []);
  zscore = λ k m. gives 3;
  zrank = λ k m. refuses (pos 0);
  zrevrank = λ k m. gives (pos 0);
  zrevrangebyscore = λ k a b. gives (a ∷ b ∷ []);
  zscan = λ k c m n. gives (one ∷ [], 4);
}

abbrev bloom : BloomCommands ℕ ℕ ℕ
bloom = record {
  bfadd = λ k v. gives true;
  bfexists = λ k v. gives true;
  bfmadd = λ k v. gives (true ∷ []);
  bfmexists = λ k v. refuses [];
  bfreserve = λ k e n. gives one;
}

abbrev idle : RedisState ℕ
idle = record { connected = true; held = 2; server = 0 }

methods_relay_example :
    KeysRelay keys idle
    × SetsRelay sets idle
    × HashesRelay hashes 0 idle
    × ListsRelay lists idle
    × SortedSetsRelay sorted_sets 0 idle
    × BloomRelay bloom idle
methods_relay_example = methods_relay keys sets hashes lists sorted_sets bloom 0 idle refl

hm_get_outcome_example :
    HmGetOutcome (hashes.hmget one [] 0).0 (hm_get hashes one [] idle).0
    × ((hm_get hashes one [] idle).1 ≡ relayed (hashes.hmget one []) idle)
hm_get_outcome_example = hm_get_outcome hashes one [] idle refl

-- A missing field is a panic.
hm_get_missing : (hm_get hashes one [] idle).0 ≡ panic
unfolding hm_get with_conn result close_conn hm_get_reply all_texts
hm_get_missing = refl

h_scan_pairs_example :
    (m : TextMap) × (h_scan hashes one 0 [] (pos 9) idle
      ≡ (ok ((m, 0), none), relayed (hashes.hscan one 0 [] (pos 9)) idle))
    × ((j : Bytes) → m j ≡ last_value j ((one, one) ∷ (one, codes "2") ∷ []) none)
h_scan_pairs_example =
    h_scan_pairs hashes one 0 [] (pos 9) idle refl ((one, one) ∷ (one, codes "2") ∷ []) 0 refl

abbrev is_seven : Error → Bool
is_seven (foreign n) = n == 7
is_seven e = false

three_seconds :
    ttl keys one idle ≡ (ok (pos 3, none), record { connected = true; held = 2; server = 1 })
unfolding ttl with_conn result close_conn quot_ℤ
three_seconds = refl

-- A later option prevails.
two_databases :
    new_options (with_db (pos 1) ∷ with_addr one ∷ with_db (pos 2) ∷ [])
    ≡ record { pass_word = []; db = pos 2; pool_size = pos 10; addr = one }
unfolding new_options apply_options with_db with_addr
two_databases = refl
