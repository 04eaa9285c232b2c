-- ===== src/Data/Migration/Pass/Kept.antt =====
-- What a pass of BatchMigratorTimer of internal/biz/migrator.go leaves in the cache.
use codewave_timer.Base.{
  ◌+◌, ◌*◌, ◌%◌, ◌^◌, ◌≤◌, ◌<◌, ◌≡◌, sym, subst, ap, ◌∙◌, arith, inl, inr, List, [], ◌∷◌, ◌++◌, All,
  ok, rem_ℤ, Bool-cases, eqb_ℤ, Result,
}
use codewave_timer.GoLib.Clock.{Time, Location, minute, second, hour, millisecond}
use codewave_timer.Config.{Config}
use codewave_timer.Exec.{Exec, lift, attempt, ◌>>=◌, bind_either}
use codewave_timer.Cron.{CronLibrary, IsCron, parsed, nexts_before, nexts_between}
use codewave_timer.Cron.Nexts.{Chain-fires, nexts_between-Chain, parse_cases}
use codewave_timer.Redis.{RedisServer, IsRedis, HasSortedSets}
use codewave_timer.Keys.{get_slice_msg_key}
use codewave_timer.Model.{JobTimer, TaskTimer, timer_to_int, enabled}
use codewave_timer.Biz.Ports.{Context, Host, JobRepo, TimerTaskRepo}
use codewave_timer.Biz.Migrator.{
  task_at, batch_tasks_from_timer, migrate_enabled, migrator_timer, migrate_all,
  batch_migrator_timer,
}
use codewave_timer.Biz.Trigger.Undisturbed.{Stays, >>=-Stays}
use codewave_timer.Data.TaskCache.{redis_cache, batch_create_tasks}
use codewave_timer.Data.TaskCache.Members.{IsFresh}
use codewave_timer.Data.TaskCache.Contents.{batch_create_tasks-Stays}
use codewave_timer.Data.Migration.Pass.{
  IsNumbered, IsLeftByPass, pass, whole_pass, pass-next, pass-first,
}
use codewave_timer.Data.TaskCache.Migrated.{year_2100, tasks-IsFresh, Chain-dated}
use codewave_timer.Data.Migration.{Stands, migrate, migrated_score, task_of-IsFresh}

module _ {W : Type 0} (c : CronLibrary) (laws : IsCron c)
    (dated : (e : c.Expr) (t : Time) → c.next e t < year_2100) (conf : Config) (host : Host W)
    (jobs : JobRepo W) (tasks : TimerTaskRepo W) (s : RedisServer W) (redis : IsRedis s)
    (sets : HasSortedSets s) (loc : Location) (T0 T : Time)
    (clock : (w : W) (t : Time) → (host.now w).0 ≡ ok t → (T0 ≤ t) × (t ≤ T))
    (some_bucket : 0 < conf.scheduler.buckets_num) (soon : T + millisecond ≤ T0 + 24 * hour)
    (horizon : T + 2 * conf.migrator.migrate_step_minutes * minute < 2 ^ 63 * millisecond) where
  abbrev pass_here : Context → List JobTimer → Exec W (Unit {0})
  pass_here = pass c conf host jobs tasks s loc

  abbrev whole_pass_here : Context → Exec W (Unit {0})
  whole_pass_here = whole_pass c conf host jobs tasks s loc

  -- The tasks of a timer whose times have been found are fresh.
  times-IsFresh :
      (timer : JobTimer) (start now : Time) (ts : List Time)
      → IsNumbered timer
      → start ≤ T
      → T0 ≤ now
      → nexts_before c now timer.cron (start + 2 * conf.migrator.migrate_step_minutes * minute)
        ≡ ok ts
      → All (IsFresh T) (batch_tasks_from_timer timer ts)
  unfolding nexts_before
  times-IsFresh timer start now ts numbered le low h = elim (parse_cases c timer.cron) [
    | inr (n, e) ↦ absurd (unfold nexts_between in ground (arith, e, h))
    | inl (expr, e) ↦
        let end = start + 2 * conf.migrator.migrate_step_minutes * minute in
        let chain = nexts_between-Chain c timer.cron now end expr ts e h in
        tasks-IsFresh timer T ts numbered.0 numbered.1 (λ u o. (
          omega (arith, Chain-dated c dated expr now end u ts chain o),
          omega (arith, (Chain-fires c laws expr now end u ts chain o).1),
        ))
  ]

  module _ (timer : JobTimer) (u : Time) (fresh : IsFresh T (task_at timer u))
      (left : IsLeftByPass host tasks (Stands s sets loc conf.scheduler.buckets_num timer u)) where
    abbrev Here : W → Type 0
    Here = Stands s sets loc conf.scheduler.buckets_num timer u

    saved_and_cached :
        (ctx : Context) (ts : List TaskTimer)
        → All (IsFresh T) ts
        → Stays Here (
            tasks.batch_save ctx ts >>= λ _.
            batch_create_tasks s host loc conf.scheduler.buckets_num ctx ts)
    unfolding task_at
    saved_and_cached ctx ts ht =
        >>=-Stays Here (tasks.batch_save ctx ts) _ (left.inserts ctx ts) (λ _.
          batch_create_tasks-Stays s sets host loc conf.scheduler.buckets_num T redis
            (λ w t e. (clock w t e).1) (task_at timer u)
            (get_slice_msg_key loc u (rem_ℤ timer.timer_id conf.scheduler.buckets_num)) fresh
            left.readings ctx ts ht)

    migrate_enabled-Stays :
        (ctx : Context) (other : JobTimer)
        → IsNumbered other
        → Stays Here (
            migrate_enabled c conf host jobs tasks
              (redis_cache s host loc conf.scheduler.buckets_num)
              ctx
              other)
    unfolding migrate_enabled redis_cache
    migrate_enabled-Stays ctx other numbered w h =
        let w1 = (host.now w).1 in
        let h1 = left.readings w h in
        let w2 = (host.now w1).1 in
        let h2 = left.readings w1 h1 in
        bind_either (λ p. Here p.1) host.now _ w
          (λ start e1.
            bind_either (λ p. Here p.1) host.now _ w1
              (λ now e2.
                bind_either (λ p. Here p.1)
                  (lift (
                    nexts_before c now other.cron
                      (start + 2 * conf.migrator.migrate_step_minutes * minute)))
                  _ w2
                  (λ ts e3.
                    saved_and_cached ctx (batch_tasks_from_timer other ts)
                      (times-IsFresh other start now ts numbered (clock w start e1).1
                        (clock w1 now e2).0 e3)
                      w2 h2)
                  (λ r f. h2))
              (λ r f. h2))
          (λ r f. h1)

    migrate-Stays :
        (ctx : Context) (other : JobTimer)
        → IsNumbered other
        → Stays Here (migrate c conf host jobs tasks s loc ctx other)
    unfolding migrator_timer
    migrate-Stays ctx other numbered w h =
        elim (Bool-cases (eqb_ℤ other.status (timer_to_int enabled))) [
          | inl on ↦ rw on (migrate_enabled-Stays ctx other numbered w h)
          | inr off ↦ rw off h
        ]

    pass-Stays :
        (ctx : Context) (others : List JobTimer)
        → All IsNumbered others
        → Stays Here (pass_here ctx others)
    unfolding migrate_all
    pass-Stays ctx [] numbered w h = h
    pass-Stays ctx (other ∷ others) numbered w h =
        >>=-Stays Here (attempt (migrate c conf host jobs tasks s loc ctx other)) _
          (migrate-Stays ctx other numbered.0)
          (λ o.
            >>=-Stays Here (host.sleep (5 * second)) _ left.pauses
              (λ _. pass-Stays ctx others numbered.1))
          w h

  module _ (timer : JobTimer) (u : Time) (fresh : IsFresh T (task_at timer u))
      (left : IsLeftByPass host tasks (Stands s sets loc conf.scheduler.buckets_num timer u))
      (ctx : Context) (after : List JobTimer) (numbered : All IsNumbered after) where
    passed-Stands :
        (before : List JobTimer) (w : W)
        → (pass_here ctx (before ++ timer ∷ after) w).0 ≡ ok tt
        → Stands s sets loc conf.scheduler.buckets_num timer u
            (migrate c conf host jobs tasks s loc ctx timer (pass_here ctx before w).1).1
        → Stands s sets loc conf.scheduler.buckets_num timer u
            (pass_here ctx (before ++ timer ∷ after) w).1
    unfolding migrate_all
    passed-Stands [] w h stands =
        let (o, e1, e2) = pass-first c conf host jobs tasks s loc ctx timer after w h in
        subst
          (λ (p : Result (Unit {0}) × W). Stands s sets loc conf.scheduler.buckets_num timer u p.1)
          (sym (pass-next c conf host jobs tasks s loc ctx timer after w e1 e2))
          (pass-Stays timer u fresh left ctx after numbered _ (left.pauses _ stands))
    passed-Stands (other ∷ before) w h stands =
        let (o, e1, e2) =
          pass-first c conf host jobs tasks s loc ctx other (before ++ timer ∷ after) w h in
        let step =
          pass-next c conf host jobs tasks s loc ctx other (before ++ timer ∷ after) w e1 e2 in
        let w1 = (host.sleep (5 * second) (migrate c conf host jobs tasks s loc ctx other w).1).1 in
        subst
          (λ (p : Result (Unit {0}) × W). Stands s sets loc conf.scheduler.buckets_num timer u p.1)
          (sym step)
          (passed-Stands before w1 (ap (λ p. p.0) (sym step) ∙ h) (
            subst
              (λ (p : Result (Unit {0}) × W).
                Stands s sets loc conf.scheduler.buckets_num timer u
                  (migrate c conf host jobs tasks s loc ctx timer p.1).1)
              (pass-next c conf host jobs tasks s loc ctx other before w e1 e2) stands))

  -- A BatchMigratorTimer that returns without an error has migrated each timer that it has found
  -- whose own migration has no error, whatever becomes of the others: for each firing time of the
  -- timer's cron expression after that migration's time `now` and before two migration steps after
  -- its `start`, in whole milliseconds, the task stands in its slice at the end, with its time as its
  -- score. What the clock, the pauses and the database's inserts do leaves it there. The numbers of
  -- the timer and of those after it are int64 that are not negative, the buckets are not 0, the cron
  -- library gives times before the year 2100 only, as documented, two migration steps after `T` are
  -- an int64 of milliseconds, and the clock stays between `T0` and `T`, within a day.
  pub batch_migrated :
      (timer : JobTimer) (expr : c.Expr) (start now u : Time) (before after : List JobTimer)
      (ctx : Context) (w : W)
      → c.parse timer.cron ≡ parsed expr
      → All IsNumbered (timer ∷ after)
      → (whole_pass_here ctx w).0 ≡ ok tt
      → (jobs.find_by_status ctx (timer_to_int enabled) w).0 ≡ ok (before ++ timer ∷ after)
      → (migrate c conf host jobs tasks s loc ctx timer
          (pass_here ctx before (jobs.find_by_status ctx (timer_to_int enabled) w).1).1).0
        ≡ ok tt
      → (host.now (pass_here ctx before (jobs.find_by_status ctx (timer_to_int enabled) w).1).1).0
        ≡ ok start
      → (host.now
          (host.now
            (pass_here ctx before (jobs.find_by_status ctx (timer_to_int enabled) w).1).1).1).0
        ≡ ok now
      → laws.Fires expr u
      → now < u
      → u < start + 2 * conf.migrator.migrate_step_minutes * minute
      → u % millisecond ≡ 0
      → IsLeftByPass host tasks (Stands s sets loc conf.scheduler.buckets_num timer u)
      → Stands s sets loc conf.scheduler.buckets_num timer u (whole_pass_here ctx w).1
  unfolding batch_migrator_timer
  batch_migrated timer expr start now u before after ctx w pc numbered h found own hs hn fires later
        early whole left =
      let v = (jobs.find_by_status ctx (timer_to_int enabled) w).1 in
      let w1 = (pass_here ctx before v).1 in
      let low = (clock (host.now w1).1 now hn).0 in
      let le = (clock w1 start hs).1 in
      let fresh =
        task_of-IsFresh c laws dated conf host jobs tasks s redis sets loc T
          (λ w t e. (clock w t e).1) timer expr start now pc numbered.0.0 numbered.0.1 some_bucket
          (omega arith) (omega arith) u later early in
      let stands =
        migrated_score c laws dated conf host jobs tasks s redis sets loc T
          (λ w t e. (clock w t e).1) timer expr start now pc numbered.0.0 numbered.0.1 some_bucket
          (omega arith) (omega arith) ctx w1 u own hs hn fires later early whole in
      rw found
        (passed-Stands timer u fresh left ctx after numbered.1 before v (rw found at h) stands)
