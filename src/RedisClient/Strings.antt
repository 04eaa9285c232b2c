-- ===== src/RedisClient/Strings.antt =====
-- pkg/cache/redis-cli.go: the methods on strings and keys.
use codewave_timer.Base.{
  zero, suc, Bool, true, false, if◌then◌else◌, List, [], Bytes, Option, none, some, ℤ, pos, negsuc,
  Error, eqb_ℤ, quot_ℤ,
}
use codewave_timer.Exec.{Exec, pure, ◌>>=◌}
use codewave_timer.GoLib.Clock.{second}
use codewave_timer.GoLib.Decimal.{format_int}
use codewave_timer.RedisClient.Conn.{
  RedisState, Cmd, Method, result, with_conn, reply, answer, answer_by,
}

-- The commands of go-redis. `Value` is any Go value.
pub record KeyCommands (S Value : Type 0) : Type 0 where
  pub incrby : Bytes → ℤ → Cmd S ℤ
  pub incr : Bytes → Cmd S ℤ
  pub decr : Bytes → Cmd S ℤ
  pub decrby : Bytes → ℤ → Cmd S ℤ
  pub set : Bytes → Bytes → ℤ → Cmd S Bytes
  pub exists : Bytes → Cmd S ℤ
  pub eval : Bytes → (List Bytes) → (List Value) → Cmd S Value
  pub get : Bytes → Cmd S Bytes
  pub del : Bytes → Cmd S ℤ
  pub ttl : Bytes → Cmd S ℤ
  pub expire : Bytes → ℤ → Cmd S Bool
  pub rename : Bytes → Bytes → Cmd S Bytes

-- `strconv.FormatInt(temp, 10)`
abbrev pub counted : ℤ × Option Error → Bytes × Option Error
counted = reply [] format_int

-- Set and Delete return the error alone.
abbrev pub done : {A : Type 0} → A × Option Error → Unit {0} × Option Error
done (a, e) = (tt, e)

-- Exists and Expire drop the error.
abbrev pub exists_reply : ℤ × Option Error → Bool
exists_reply (n, none) = eqb_ℤ n (pos 1)
exists_reply (n, some e) = false

abbrev pub expire_reply : Bool × Option Error → Bool
expire_reply (b, none) = b
expire_reply (b, some e) = false

-- `is_nil` is the test `err == redis.Nil`.
abbrev pub get_reply : (Error → Bool) → Bytes × Option Error → (Bytes × Bool) × Option Error
get_reply is_nil (ret, none) = ((ret, true), none)
get_reply is_nil (ret, some e) = if is_nil e then (([], false), none) else (([], false), some e)

-- A time to live is a whole number of seconds; -2 and -1 are codes.
abbrev pub remaining : ℤ → ℤ
remaining (negsuc zero) = negsuc 0
remaining (negsuc (suc zero)) = negsuc 1
remaining d = quot_ℤ d second

module _ {S Value : Type 0} (c : KeyCommands S Value) where
  -- IncrBy
  unfoldable pub incr_by : Bytes → ℤ → Method S ℤ
  incr_by key count = answer (pos 0) (c.incrby key count)

  -- Incr
  unfoldable pub incr : Bytes → Method S Bytes
  incr key = answer_by counted (c.incr key)

  -- Decr
  unfoldable pub decr : Bytes → Method S Bytes
  decr key = answer_by counted (c.decr key)

  -- DecrBy
  unfoldable pub decr_by : Bytes → ℤ → Method S ℤ
  decr_by key count = answer (pos 0) (c.decrby key count)

  -- Set
  unfoldable pub set_text : Bytes → Bytes → ℤ → Method S (Unit {0})
  set_text key value expire_time = answer_by done (c.set key value expire_time)

  -- Exists
  unfoldable pub key_exists : Bytes → Exec (RedisState S) Bool
  key_exists key = with_conn (result (c.exists key) >>= λ r. pure (exists_reply r))

  -- EvalResults
  unfoldable pub eval_results : Bytes → List Bytes → List Value → Method S Value
  eval_results script keys args = with_conn (result (c.eval script keys args))

  -- Delete
  unfoldable pub delete : Bytes → Method S (Unit {0})
  delete key = answer_by done (c.del key)

  -- TTL
  unfoldable pub ttl : Bytes → Method S ℤ
  ttl key = answer_by (reply (negsuc 2) remaining) (c.ttl key)

  -- Expire
  unfoldable pub expire : Bytes → ℤ → Exec (RedisState S) Bool
  expire key ttl = with_conn (result (c.expire key ttl) >>= λ r. pure (expire_reply r))

  -- Rename
  unfoldable pub rename : Bytes → Bytes → Method S Bool
  rename key new_key = answer_by (reply false (λ ok_text. true)) (c.rename key new_key)

  module _ (is_nil : Error → Bool) where
    -- Get
    unfoldable pub get_text : Bytes → Method S (Bytes × Bool)
    get_text key = answer_by (get_reply is_nil) (c.get key)
