-- ===== src/Data/Migration.antt =====
-- From the migrator of internal/biz/migrator.go, through the cache of
-- internal/data/task_cache_redis.go, to the slices that a trigger reads.
pub mod Submitted
pub mod Left
pub mod Called
pub mod Pass
use codewave_timer.Base.{
  ℕ, ◌+◌, ◌*◌, ◌/◌, ◌%◌, ◌^◌, ◌≤◌, ◌<◌, ◌≡◌, refl, sym, subst, ap, ◌∙◌, arith, some, to_uint64,
  Result, inl, inr, List, [], ◌∷◌, Has, All, ok, ℤ, neg_part, ◌≤ℤ◌, ◌<ℤ◌, IsInt64, rem_ℤ,
}
use codewave_timer.GoLib.Clock.{
  Time, Location, minute, hour, millisecond, unix_milli, of_unix_milli,
}
use codewave_timer.Config.{Config}
use codewave_timer.Exec.{Exec}
use codewave_timer.Cron.{CronLibrary, IsCron, parsed, nexts_before}
use codewave_timer.Cron.Nexts.{Occurs, Chain, Chain-fires, Chain-Occurs, nexts_between-Chain}
use codewave_timer.Redis.{RedisServer, IsRedis, HasSortedSets}
use codewave_timer.Keys.{get_table_name, get_slice_msg_key, union_timer_id_unix}
use codewave_timer.Keys.Buckets.{get_table_name-slice}
use codewave_timer.Model.{JobTimer, TaskTimer}
use codewave_timer.Biz.Ports.{Context, Host, JobRepo, TimerTaskRepo}
use codewave_timer.Biz.Migrator.{task_at, batch_tasks_from_timer, migrator_timer}
use codewave_timer.Biz.Migrator.Migrated.{migrator_timer-ok}
use codewave_timer.Data.TaskCache.{redis_cache, batch_create_tasks, get_tasks_by_time}
use codewave_timer.Data.TaskCache.Migrated.{
  of_unix_milli-unix_milli, unix_milli-IsInt64, Has-task, task_at-IsFresh, tasks-IsFresh, year_2100,
  Chain-dated, task_at-table,
}
use codewave_timer.Data.TaskCache.Members.{IsFresh, recalled}
use codewave_timer.Data.TaskCache.Contents.{batch_create_tasks-score}
use codewave_timer.Data.TaskCache.Scores.{get_tasks_by_time-Has}

-- The task of a timer at a time stands in its slice, with its time as its score.
abbrev pub Stands :
    {W : Type 0}
    → (s : RedisServer W) → HasSortedSets s
    → Location
    → ℕ
    → JobTimer
    → Time
    → W
    → Type 0
Stands s sets loc n timer u w =
    sets.score (get_slice_msg_key loc u (rem_ℤ timer.timer_id n))
      (union_timer_id_unix (to_uint64 timer.timer_id) (unix_milli u)) w
    ≡ some (unix_milli u)

-- MigratorTimer over the cache in redis.
abbrev pub migrate :
    {W : Type 0}
    → CronLibrary
    → Config
    → Host W
    → JobRepo W
    → TimerTaskRepo W
    → RedisServer W
    → Location
    → Context
    → JobTimer
    → Exec W (Unit {0})
migrate c conf host jobs tasks s loc =
    migrator_timer c conf host jobs tasks (redis_cache s host loc conf.scheduler.buckets_num)

module _ {W : Type 0} (c : CronLibrary) (laws : IsCron c)
    (dated : (e : c.Expr) (t : Time) → c.next e t < year_2100) (conf : Config) (host : Host W)
    (jobs : JobRepo W) (tasks : TimerTaskRepo W) (s : RedisServer W) (redis : IsRedis s)
    (sets : HasSortedSets s) (loc : Location) (T : Time)
    (clock : (w : W) (t : Time) → (host.now w).0 ≡ ok t → t ≤ T) where
  module _ (timer : JobTimer) (expr : c.Expr) (start now : Time)
      (parsed_cron : c.parse timer.cron ≡ parsed expr) (fits : IsInt64 timer.timer_id)
      (nonneg : neg_part timer.timer_id ≡ 0) (some_bucket : 0 < conf.scheduler.buckets_num)
      (soon : T + millisecond ≤ now + 24 * hour)
      (horizon : start + 2 * conf.migrator.migrate_step_minutes * minute
        < 2 ^ 63 * millisecond) where
    times-IsFresh :
        (ts : List Time)
        → nexts_before c now timer.cron (start + 2 * conf.migrator.migrate_step_minutes * minute)
          ≡ ok ts
        → All (IsFresh T) (batch_tasks_from_timer timer ts)
    unfolding nexts_before
    times-IsFresh ts h =
        let end = start + 2 * conf.migrator.migrate_step_minutes * minute in
        let chain = nexts_between-Chain c timer.cron now end expr ts parsed_cron h in
        tasks-IsFresh timer T ts fits nonneg (λ u o. (
          omega (arith, Chain-dated c dated expr now end u ts chain o),
          omega (arith, (Chain-fires c laws expr now end u ts chain o).1),
        ))

    times-Occurs :
        (u : Time) (ts : List Time)
        → nexts_before c now timer.cron (start + 2 * conf.migrator.migrate_step_minutes * minute)
          ≡ ok ts
        → laws.Fires expr u
        → now < u
        → u < start + 2 * conf.migrator.migrate_step_minutes * minute
        → Occurs u ts
    unfolding nexts_before
    times-Occurs u ts h fires later early =
        let end = start + 2 * conf.migrator.migrate_step_minutes * minute in
        Chain-Occurs c laws expr now end u ts
          (nexts_between-Chain c timer.cron now end expr ts parsed_cron h) fires later early

    -- The score of a task whose timer has been migrated, once the times of the migration are known.
    batch_score :
        (ctx : Context) (w : W) (u : Time) (ts : List Time)
        → nexts_before c now timer.cron (start + 2 * conf.migrator.migrate_step_minutes * minute)
          ≡ ok ts
        → Occurs u ts
        → u % millisecond ≡ 0
        → (batch_create_tasks s host loc conf.scheduler.buckets_num ctx
            (batch_tasks_from_timer timer ts)
            w).0
          ≡ ok tt
        → Stands s sets loc conf.scheduler.buckets_num timer u
            (batch_create_tasks s host loc conf.scheduler.buckets_num ctx
              (batch_tasks_from_timer timer ts)
              w).1
    unfolding task_at
    batch_score ctx w u ts ht o whole done =
        batch_create_tasks-score s sets host loc conf.scheduler.buckets_num T redis clock ctx
          (batch_tasks_from_timer timer ts) w (task_at timer u)
          (get_slice_msg_key loc u (rem_ℤ timer.timer_id conf.scheduler.buckets_num))
          (times-IsFresh ts ht) done (Has-task timer u ts o)
          (task_at-table loc conf.scheduler.buckets_num timer u some_bucket whole)

    pub migrated_score :
        (ctx : Context) (w : W) (u : Time)
        → (migrate c conf host jobs tasks s loc ctx timer w).0 ≡ ok tt
        → (host.now w).0 ≡ ok start
        → (host.now (host.now w).1).0 ≡ ok now
        → laws.Fires expr u
        → now < u
        → u < start + 2 * conf.migrator.migrate_step_minutes * minute
        → u % millisecond ≡ 0
        → Stands s sets loc conf.scheduler.buckets_num timer u
            (migrate c conf host jobs tasks s loc ctx timer w).1
    migrated_score ctx w u h hs hn fires later early whole =
        let (is_on, (start', now', ts, es, en, et, eb, ep)) =
          migrator_timer-ok c conf host jobs tasks
            (redis_cache s host loc conf.scheduler.buckets_num) ctx timer w h in
        let times : nexts_before c now timer.cron
              (start + 2 * conf.migrator.migrate_step_minutes * minute)
            ≡ ok ts =
          cc (et, es, hs, en, hn) in
        let w3 =
          (tasks.batch_save ctx (batch_tasks_from_timer timer ts) (host.now (host.now w).1).1).1 in
        subst
          (λ (p : Result (Unit {0}) × W). Stands s sets loc conf.scheduler.buckets_num timer u p.1)
          (sym ep)
          (unfold redis_cache in
            batch_score ctx w3 u ts times (times-Occurs u ts times fires later early) whole
              (cc (ep, h)))

    -- The task of a time in the horizon is fresh.
    pub task_of-IsFresh :
        (u : Time)
        → now < u
        → u < start + 2 * conf.migrator.migrate_step_minutes * minute
        → IsFresh T (task_at timer u)
    task_of-IsFresh u later early =
        task_at-IsFresh timer T u fits nonneg (omega arith) (omega arith)

    -- A timer that has been migrated without an error at a time `now`: for each firing time of its
    -- cron expression after `now` and before two migration steps after `start`, in whole
    -- milliseconds, GetTasksByTime on the slice of that time and of the timer's bucket, over a range
    -- that holds it, finds a task with the number of the timer and that time. The migration ends
    -- before `T`, within a day.
    pub migrated_task_found :
        (ctx ctx' : Context) (w : W) (u : Time) (lo hi : ℤ) (found : List TaskTimer)
        → (migrate c conf host jobs tasks s loc ctx timer w).0 ≡ ok tt
        → (host.now w).0 ≡ ok start
        → (host.now (host.now w).1).0 ≡ ok now
        → laws.Fires expr u
        → now < u
        → u < start + 2 * conf.migrator.migrate_step_minutes * minute
        → u % millisecond ≡ 0
        → (get_tasks_by_time s host loc conf.scheduler.buckets_num ctx'
            (get_slice_msg_key loc u (rem_ℤ timer.timer_id conf.scheduler.buckets_num))
            lo
            hi
            (migrate c conf host jobs tasks s loc ctx timer w).1).0
          ≡ ok found
        → lo ≤ℤ unix_milli u
        → unix_milli u <ℤ hi
        → Has (recalled (task_at timer u)) found
    unfolding task_at
    migrated_task_found ctx ctx' w u lo hi found h hs hn fires later early whole hf low high =
        get_tasks_by_time-Has s sets redis host loc conf.scheduler.buckets_num ctx'
          (get_slice_msg_key loc u (rem_ℤ timer.timer_id conf.scheduler.buckets_num)) lo hi T
          (task_at timer u) (migrate c conf host jobs tasks s loc ctx timer w).1 found
          (task_of-IsFresh u later early) hf
          (migrated_score ctx w u h hs hn fires later early whole) low high
