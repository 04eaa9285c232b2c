-- ===== src/Settings.antt =====
-- The settings of the process, which are read once: internal/config/config.go. viper is a parameter.
pub mod Sticky
use codewave_timer.Base.{
  ◌≡◌, Bool, true, false, Bytes, [], ℤ, pos, Result, ok, err, panic, spin, Error, if◌then◌else◌,
}
use codewave_timer.Exec.{Exec}
use codewave_timer.Config.{Config, SchedulerConfig, TriggerConfig, MigratorConfig}
use codewave_timer.Data.Start.{DatabaseConfig, RedisConfig}

pub record HttpConfig : Type 0 where
  pub host : Bytes
  pub port : ℤ
  pub timeout : Bytes

pub record ServerConfig : Type 0 where
  pub http : HttpConfig

pub record Data : Type 0 where
  pub database : DatabaseConfig
  pub redis : RedisConfig
  pub scheduler : SchedulerConfig
  pub trigger : TriggerConfig
  pub migrator : MigratorConfig

pub record GlobalConfig : Type 0 where
  pub server_config : ServerConfig
  pub data_config : Data

-- What the use cases read of it.
abbrev pub config_of : Data → Config
config_of d = record { scheduler = d.scheduler; trigger = d.trigger; migrator = d.migrator }

-- viper.SetConfigFile with viper.ReadInConfig, and viper.Unmarshal, which writes into the settings,
-- in part also when it fails.
pub record Viper (W : Type 0) : Type 0 where
  pub read_in_config : Bytes → Exec W (Unit {0})
  pub unmarshal : W → Result (Unit {0}) × (GlobalConfig → GlobalConfig)

-- The variables `globalConfig` and `once`.
pub record Globals : Type 0 where
  pub global_config : GlobalConfig
  pub once_done : Bool

-- `if err != nil { panic(…) }`
abbrev pub or_panic : Result (Unit {0}) → Result (Unit {0})
or_panic (err e) = panic
or_panic r = r

module _ {W : Type 0} (viper : Viper W) where
  pub unmarshalled : Globals → Result (Unit {0}) × W → Result (Unit {0}) × (Globals × W)
  unmarshalled g (ok u, w) =
      let (r, write) = viper.unmarshal w in
      (or_panic r, (record g { global_config = write g.global_config }, w))
  unmarshalled g (r, w) = (or_panic r, (g, w))

  -- readConf
  unfoldable pub read_conf : Bytes → Exec (Globals × W) (Unit {0})
  unfolding unmarshalled
  read_conf config_file (g, w) = unmarshalled g (viper.read_in_config config_file w)

  -- once.Do is over also after a panic, which goes on.
  pub once_over : Result (Unit {0}) × (Globals × W) → Result GlobalConfig × (Globals × W)
  once_over (ok u, (g, w)) = (ok g.global_config, (record g { once_done = true }, w))
  once_over (err e, (g, w)) = (err e, (record g { once_done = true }, w))
  once_over (panic, (g, w)) = (panic, (record g { once_done = true }, w))
  once_over (spin, s) = (spin, s)

  -- GetGlobalConfig
  unfoldable pub get_global_config : Bytes → Exec (Globals × W) GlobalConfig
  unfolding read_conf once_over
  get_global_config config_file (g, w) =
      if g.once_done then (ok g.global_config, (g, w)) else once_over (read_conf config_file (g, w))
