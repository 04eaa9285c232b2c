-- ===== src/Data/Start.antt =====
-- The connections that the process opens once: internal/data/init.go. gorm is a parameter.
pub mod Sticky
use codewave_timer.Base.{
  ◌++◌, ◌*◌, List, [], ◌∷◌, Bytes, codes, Option, none, some, Bool, true, false, if◌then◌else◌, ℤ,
  pos, ok, err, panic, spin, Result, Error, sub_ℕ, pos_part, neg_part,
}
use codewave_timer.GoLib.Clock.{second}
use codewave_timer.Exec.{Exec, pure, ◌>>=◌, ◌>>◌}
use codewave_timer.Lock.Client.{of_seconds}
use codewave_timer.RedisClient.Conn.{
  RedisState, Cmd, ClientOptions, ClientOption, with_addr, with_pass_word, with_db, with_pool_size,
  init,
}

pub record DatabaseConfig : Type 0 where
  pub addr : Bytes
  pub user : Bytes
  pub password : Bytes
  pub database : Bytes
  pub max_idle_conn : ℤ
  pub max_open_conn : ℤ
  pub max_idle_time : ℤ

pub record RedisConfig : Type 0 where
  pub addr : Bytes
  pub password : Bytes
  pub db : ℤ
  pub pool_size : ℤ

-- gorm.Open with mysql.Open, db.DB, and the settings of a sql.DB.
pub record Sql (W : Type 0) : Type 1 where
  pub Db : Type 0
  pub Pool : Type 0
  pub open_db : Bytes → Exec W Db
  pub pool_of : Db → Exec W Pool
  pub set_max_idle_conns : Pool → ℤ → W → W
  pub set_max_open_conns : Pool → ℤ → W → W
  pub set_conn_max_idle_time : Pool → ℤ → W → W

-- A sync.Once and the variable that it guards.
pub record Once (A : Type 0) : Type 0 where
  pub done : Bool
  pub value : Option A

-- How `once.Do` ends for a function that sets the variable: an error leaves nil behind, and a panic
-- leaves the variable as it was.
unfoldable pub set_once : {A W : Type 0} → Once A → Result A × W → Result (Option A) × (Once A × W)
set_once o (ok a, w) = (ok (some a), (record { done = true; value = some a }, w))
set_once o (err e, w) = (ok none, (record { done = true; value = none }, w))
set_once o (panic, w) = (panic, (record { done = true; value = o.value }, w))
set_once o (spin, w) = (spin, (o, w))

unfoldable pub do_once : {A W : Type 0} → Exec W A → Exec (Once A × W) (Option A)
unfolding set_once
do_once f (o, w) = if o.done then (ok o.value, (o, w)) else set_once o (f w)

-- The data source of NewDatabase.
unfoldable pub dsn : DatabaseConfig → Bytes
dsn conf =
    conf.user
    ++ (codes ":"
        ++ (conf.password
            ++ (codes "@tcp("
                ++ (conf.addr
                    ++ (codes ")/"
                        ++ (conf.database ++ codes "?charset=utf8mb4&parseTime=True&loc=Local"))))))

module _ {W : Type 0} (sql : Sql W) where
  open sql use {Db, Pool}

  set_limits : DatabaseConfig → Pool → Exec W (Unit {0})
  set_limits conf pool w = (
    ok tt,
    sql.set_conn_max_idle_time pool (of_seconds conf.max_idle_time) (
        sql.set_max_open_conns pool conf.max_open_conn
          (sql.set_max_idle_conns pool conf.max_idle_conn w)),
  )

  -- NewDatabase
  unfoldable pub new_database : DatabaseConfig → Exec W Db
  unfolding dsn set_limits
  new_database conf = do
    db ← sql.open_db (dsn conf)
    pool ← sql.pool_of db
    set_limits conf pool
    pure db

  -- GetDataBase: an error of NewDatabase is dropped.
  unfoldable pub get_data_base : DatabaseConfig → Exec (Once Db × W) (Option Db)
  unfolding do_once
  get_data_base conf = do_once (new_database conf)

unfoldable pub cache_options : RedisConfig → List ClientOption
cache_options conf =
    with_addr conf.addr
    ∷ with_pass_word conf.password
    ∷ with_db conf.db
    ∷ with_pool_size conf.pool_size
    ∷ []

module _ {S : Type 0} (new_client : ClientOptions → Bool) (ping : ClientOptions → Cmd S Bytes) where
  -- NewCache; its error is always nil.
  unfoldable pub new_cache : RedisConfig → Exec (RedisState S) (Unit {0})
  unfolding cache_options
  new_cache conf = init new_client ping (cache_options conf)

  -- GetCache
  unfoldable pub get_cache : RedisConfig → Exec (Once (Unit {0}) × RedisState S) (Option (Unit {0}))
  unfolding do_once
  get_cache conf = do_once (new_cache conf)
