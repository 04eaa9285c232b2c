-- ===== src/Biz/Migrator/Migrated.antt =====
-- What MigratorTimer of internal/biz/migrator.go has done when it returns without an error.
use codewave_timer.Base.{
  ◌+◌, ◌*◌, ◌≡◌, ◌∙◌, arith, Bool-cases, inl, inr, List, eqb_ℤ, eqb_ℤ→eq, Result, ok,
}
use codewave_timer.GoLib.Clock.{Time, minute}
use codewave_timer.Exec.{lift, >>=-eq-ok}
use codewave_timer.Config.{Config}
use codewave_timer.Cron.{CronLibrary, nexts_before}
use codewave_timer.Model.{JobTimer, timer_to_int, enabled}
use codewave_timer.Biz.Ports.{Context, JobRepo, TimerTaskRepo, TaskCache, Host}
use codewave_timer.Biz.Migrator.{batch_tasks_from_timer, migrate_enabled, migrator_timer}

module _ {W : Type 0} (c : CronLibrary) (conf : Config) (host : Host W) (jobs : JobRepo W)
    (tasks : TimerTaskRepo W) (cache : TaskCache W) where
  -- With the two readings of the clock, `start` and then `now`, the times are those of the timer's
  -- cron expression from `now` to two migration steps after `start`, and one and the same batch of
  -- tasks, one for each of these times, has been saved in the database and then in the cache; `p` is
  -- what the cache returned.
  abbrev pub Migrated : Context → JobTimer → W → Result (Unit {0}) × W → Type 0
  Migrated ctx timer w p =
      let w2 = (host.now (host.now w).1).1 in
      (start now : Time) × (times : List Time) × ((host.now w).0 ≡ ok start)
      × ((host.now (host.now w).1).0 ≡ ok now)
      × (nexts_before c now timer.cron (start + 2 * conf.migrator.migrate_step_minutes * minute)
          ≡ ok times)
      × ((tasks.batch_save ctx (batch_tasks_from_timer timer times) w2).0 ≡ ok tt)
      × (p
          ≡ cache.batch_create_tasks ctx (batch_tasks_from_timer timer times)
              (tasks.batch_save ctx (batch_tasks_from_timer timer times) w2).1)

  migrate_enabled-ok :
      (ctx : Context) (timer : JobTimer) (w : W)
      → (migrate_enabled c conf host jobs tasks cache ctx timer w).0 ≡ ok tt
      → Migrated ctx timer w (migrate_enabled c conf host jobs tasks cache ctx timer w)
  unfolding migrate_enabled
  migrate_enabled-ok ctx timer w h =
      let (start, e1, h1, s1) = >>=-eq-ok host.now _ w h in
      let (now, e2, h2, s2) = >>=-eq-ok host.now _ (host.now w).1 h1 in
      let (times, e3, h3, s3) =
        >>=-eq-ok
          (lift (
            nexts_before c now timer.cron
              (start + 2 * conf.migrator.migrate_step_minutes * minute)))
          _ (host.now (host.now w).1).1 h2 in
      let (u, e4, h4, s4) =
        >>=-eq-ok (tasks.batch_save ctx (batch_tasks_from_timer timer times)) _
          (host.now (host.now w).1).1 h3 in
      (start, now, times, e1, e2, e3, e4, s1 ∙ s2 ∙ s3 ∙ s4)

  -- MigratorTimer without an error: the timer was enabled, and its coming times have been migrated.
  pub migrator_timer-ok :
      (ctx : Context) (timer : JobTimer) (w : W)
      → (migrator_timer c conf host jobs tasks cache ctx timer w).0 ≡ ok tt
      → (timer.status ≡ timer_to_int enabled)
        × Migrated ctx timer w (migrator_timer c conf host jobs tasks cache ctx timer w)
  unfolding migrator_timer
  migrator_timer-ok ctx timer w h = elim (Bool-cases (eqb_ℤ timer.status (timer_to_int enabled))) [
    | inr other ↦ absurd (ground arith)
    | inl same ↦ (
      eqb_ℤ→eq timer.status (timer_to_int enabled) same,
      rw same (migrate_enabled-ok ctx timer w (rw same at h)),
    )
  ]
