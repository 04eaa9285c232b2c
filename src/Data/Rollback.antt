-- ===== src/Data/Rollback.antt =====
-- EnableTimer over the repository of internal/data/cron_job.go, whose Update does not take part in
-- the transaction of internal/data/data.go.
use codewave_timer.Base.{◌≡◌, some, err, Error, ◌⊎◌, ℤ, Result}
use codewave_timer.Exec.{Exec}
use codewave_timer.Redis.{RedisServer}
use codewave_timer.Model.{JobTimer, timer_to_int, enabled}
use codewave_timer.Biz.Ports.{Context}
use codewave_timer.Data.Gorm.{Gorm, HasTransactions}

module _ {W : Type 0} (s : RedisServer W) (g : Gorm W) (laws : HasTransactions g)
    (migrate : Context → JobTimer → Exec W (Unit {0})) where
  open laws use {status}

  -- The timer as EnableTimer writes it.
  abbrev pub as_enabled : JobTimer → JobTimer
  as_enabled timer = record timer { status = timer_to_int enabled }

  -- How the transaction ends: it has not begun, and no status has changed; or it has failed with the
  -- error `e`, and the timer is enabled.
  abbrev pub EndsEnabled : ℤ → Error → W → Result (Unit {0}) × W → Type 0
  EndsEnabled id e w p =
      ((x : Error) × (p.0 ≡ err x) × ((j : ℤ) → status j p.1 ≡ status j w))
      ⊎ ((p.0 ≡ err e) × (status id p.1 ≡ some (timer_to_int enabled)))
