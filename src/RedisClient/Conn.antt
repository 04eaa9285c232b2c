-- ===== src/RedisClient/Conn.antt =====
-- pkg/cache/redis-cli.go: the client's options and start, and what each of its methods does with a
-- connection. go-redis and the server are parameters.
use codewave_timer.Base.{
  ℕ, ◌+◌, ◌-◌, Bool, true, false, if◌then◌else◌, List, [], ◌∷◌, Bytes, codes, Option, none, some, ℤ,
  pos, Result, ok, panic, Error,
}
use codewave_timer.Exec.{Exec, deferred, pure, ◌>>=◌}

-- `redisConn`: nil until Init. `held` counts the connections that `redisConn.Conn()` gave and that
-- are not closed yet; `server` is what the commands change.
pub record RedisState (S : Type 0) : Type 0 where
  pub connected : Bool
  pub held : ℕ
  pub server : S

-- A command and its `Result()`: a value and an error.
abbrev pub Cmd : Type 0 → Type 0 → Type 0
Cmd S A = S → (A × Option Error) × S

abbrev pub Method : Type 0 → Type 0 → Type 0
Method S A = Exec (RedisState S) (A × Option Error)

pub record ClientOptions : Type 0 where
  pub pass_word : Bytes
  pub db : ℤ
  pub pool_size : ℤ
  pub addr : Bytes

unfoldable pub with_pass_word : Bytes → ClientOptions → ClientOptions
with_pass_word pass_word o = record o { pass_word = pass_word }

unfoldable pub with_db : ℤ → ClientOptions → ClientOptions
with_db db o = record o { db = db }

unfoldable pub with_pool_size : ℤ → ClientOptions → ClientOptions
with_pool_size pool_size o = record o { pool_size = pool_size }

unfoldable pub with_addr : Bytes → ClientOptions → ClientOptions
with_addr addr o = record o { addr = addr }

abbrev pub ClientOption : Type 0
ClientOption = ClientOptions → ClientOptions

abbrev pub default_client_options : ClientOptions
default_client_options = record {
  pass_word = [];
  db = pos 0;
  pool_size = pos 10;
  addr = codes "127.0.0.1:6379";
}

unfoldable pub apply_options : List ClientOption → ClientOptions → ClientOptions
apply_options [] o = o
apply_options (opt ∷ opts) o = apply_options opts (opt o)

unfoldable pub new_options : List ClientOption → ClientOptions
new_options opts = apply_options opts default_client_options

module _ {S : Type 0} where
  abbrev pinged : ℕ → (Bytes × Option Error) × S → Result (Unit {0}) × RedisState S
  pinged held ((pong, none), s) = (ok tt, record { connected = true; held = held; server = s })
  pinged held ((pong, some e), s) = (panic, record { connected = true; held = held; server = s })

  -- newRedisConn: `new_client` says whether NewClient gives a client.
  unfoldable pub new_redis_conn :
      (ClientOptions → Bool)
      → (ClientOptions → Cmd S Bytes)
      → ClientOptions
      → Exec (RedisState S) (Unit {0})
  new_redis_conn new_client ping o w =
      if new_client o
      then pinged w.held (ping o w.server)
      else (panic, record w { connected = false })

  -- Init
  unfoldable pub init :
      (ClientOptions → Bool)
      → (ClientOptions → Cmd S Bytes)
      → List ClientOption
      → Exec (RedisState S) (Unit {0})
  init new_client ping options = new_redis_conn new_client ping (new_options options)

  -- Close
  unfoldable pub close : (S → S) → RedisState S → RedisState S
  close close_client w = if w.connected then record w { server = close_client w.server } else w

  unfoldable pub close_conn : Exec (RedisState S) (Unit {0})
  close_conn w = (ok tt, record w { held = w.held - 1 })

  unfoldable pub result : {A : Type 0} → Cmd S A → Method S A
  result cmd w = let (a, s) = cmd w.server in (ok a, record w { server = s })

  -- `conn := redisConn.Conn(); defer conn.Close()`: the method `Conn` of a nil client panics.
  unfoldable pub with_conn : {A : Type 0} → Exec (RedisState S) A → Exec (RedisState S) A
  unfolding close_conn
  with_conn body w =
      if w.connected then deferred close_conn body (record w { held = w.held + 1 }) else (panic, w)

-- `if err != nil { return failure, err }; return f(temp), nil`
abbrev pub reply : {A B : Type 0} → B → (A → B) → A × Option Error → B × Option Error
reply failure f (a, none) = (f a, none)
reply failure f (a, some e) = (failure, some e)

abbrev pub answer_by :
    {S A B : Type 0} → (A × Option Error → B × Option Error) → Cmd S A → Method S B
answer_by f cmd = with_conn (result cmd >>= λ r. pure (f r))

abbrev pub answer : {S A : Type 0} → A → Cmd S A → Method S A
answer failure cmd = answer_by (reply failure (λ a. a)) cmd

-- A map[string]string.
abbrev pub TextMap : Type 0
TextMap = Bytes → Option Bytes
