-- ===== src/Config.antt =====
-- The settings that the program reads: internal/config/config.go. Each is a number of the
-- configuration file, which are taken not to be negative.
use codewave_timer.Base.{ℕ}

pub record SchedulerConfig : Type 0 where
  pub workers_num : ℕ
  pub buckets_num : ℕ
  pub try_lock_seconds : ℕ
  pub try_lock_gap_milli_seconds : ℕ
  pub success_expire_seconds : ℕ

pub record TriggerConfig : Type 0 where
  pub zrange_gap_seconds : ℕ
  pub workers_num : ℕ
  pub slow_workers_num : ℕ

pub record MigratorConfig : Type 0 where
  pub workers_num : ℕ
  pub migrate_step_minutes : ℕ

pub record Config : Type 0 where
  pub scheduler : SchedulerConfig
  pub trigger : TriggerConfig
  pub migrator : MigratorConfig

-- The values of etc/codewavetimer-api.yaml.
abbrev pub shipped : Config
shipped = record {
  scheduler = record {
    workers_num = 100;
    buckets_num = 5;
    try_lock_seconds = 70;
    try_lock_gap_milli_seconds = 1000;
    success_expire_seconds = 130;
  };
  trigger = record { zrange_gap_seconds = 1; workers_num = 10000; slow_workers_num = 100 };
  migrator = record { workers_num = 1000; migrate_step_minutes = 30 };
}
