-- ===== src/TimerTask.antt =====
-- The process's own jobs: internal/utils/inner_task_timer.go, over github.com/robfig/cron, a parameter.
-- J are the functions that run as jobs.
pub mod Firings
use codewave_timer.Base.{
  ℕ, Bool, true, List, [], ◌∷◌, ◌++◌, Bytes, ◌⊎◌, inl, inr, Error, Result, ok, spin,
}
use codewave_timer.Exec.{Exec, pure, attempt, ◌>>=◌}

-- A process: the goroutines that have begun, oldest first; whether os.Exit has been called; and the
-- world outside.
pub record Process (J W : Type 0) : Type 0 where
  pub begun : List J
  pub exited : Bool
  pub world : W

-- The function `func() { go job() }`.
pub data CronFunc (J : Type 0) : Type 0 where
  goes : J → CronFunc J

pub record Robfig (J W : Type 0) : Type 1 where
  pub Cron : Type 0
  pub new_cron : W → Cron × W  -- cron.New(cron.WithSeconds())
  pub start_cron : Cron → W → W
  pub stop_cron : Cron → W → W
  pub add_func : Cron → Bytes → CronFunc J → Exec W ℕ

module _ {J W : Type 0} where
  unfoldable pub on_world : {A : Type 0} → Exec W A → Exec (Process J W) A
  on_world m p = let (r, w) = m p.world in (r, record p { world = w })

  -- `go job()`
  unfoldable pub go : J → Exec (Process J W) (Unit {0})
  go job p = (ok tt, record p { begun = p.begun ++ job ∷ [] })

  -- log.Fatalf, which ends the process: nothing comes after it, and no deferred call runs.
  unfoldable pub fatalf : {A : Type 0} → Exec (Process J W) A
  fatalf p = (spin, record p { exited = true })

  -- What the cron library calls when a job is due.
  unfoldable pub call : CronFunc J → Exec (Process J W) (Unit {0})
  call (goes job) = go job

  module _ (robfig : Robfig J W) where
    open robfig use {Cron}

    -- NewTimerTask: the TimerTask is its cron.
    unfoldable pub new_timer_task : Exec (Process J W) Cron
    new_timer_task = on_world (λ w. let (c, w') = robfig.new_cron w in (ok c, w'))

    -- Start
    unfoldable pub start : Cron → Exec (Process J W) (Unit {0})
    start c = on_world (λ w. (ok tt, robfig.start_cron c w))

    -- Stop
    unfoldable pub stop : Cron → Exec (Process J W) (Unit {0})
    stop c = on_world (λ w. (ok tt, robfig.stop_cron c w))

    -- AddStartupJob
    unfoldable pub add_startup_job : Cron → J → Exec (Process J W) (Unit {0})
    add_startup_job c job = go job

    unfoldable pub added_or_not : ℕ ⊎ Error → Exec (Process J W) (Unit {0})
    added_or_not (inl id) = pure tt
    added_or_not (inr e) = fatalf

    -- AddRecurringJob: an error ends the process before it would be returned.
    unfoldable pub add_recurring_job : Cron → Bytes → J → Exec (Process J W) (Unit {0})
    unfolding added_or_not
    add_recurring_job c schedule job =
        attempt (on_world (robfig.add_func c schedule (goes job))) >>= added_or_not
