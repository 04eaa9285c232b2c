-- ===== src/Data/Migration/Submitted.antt =====
-- From the migrator of internal/biz/migrator.go to the batches of internal/biz/trigger.go.
use codewave_timer.Base.{
  ◌+◌, ◌*◌, ◌%◌, ◌^◌, ◌≤◌, ◌<◌, ◌≡◌, sym, List, [], ◌∷◌, ◌++◌, map, Has, Bytes, ok, neg_part, ◌≤ℤ◌,
  ◌<ℤ◌, IsInt64, rem_ℤ, to_uint64, subst, Has-append_right, Has-map,
}
use codewave_timer.GoLib.Clock.{Time, Location, minute, hour, millisecond, unix_milli}
use codewave_timer.Exec.{Exec}
use codewave_timer.Config.{Config}
use codewave_timer.Cron.{CronLibrary, IsCron, parsed}
use codewave_timer.Redis.{RedisServer, IsRedis, HasSortedSets}
use codewave_timer.Keys.{get_slice_msg_key, union_timer_id_unix}
use codewave_timer.Model.{JobTimer, TaskTimer}
use codewave_timer.Biz.Ports.{Context, Host, JobRepo, TimerTaskRepo}
use codewave_timer.Biz.Migrator.{task_at}
use codewave_timer.Biz.Trigger.{handle_batch}
use codewave_timer.Biz.Trigger.Batch.{key_of, handle_batch-takes}
use codewave_timer.Data.TaskCache.{redis_cache, get_tasks_by_time}
use codewave_timer.Data.TaskCache.Members.{recalled}
use codewave_timer.Data.TaskCache.Migrated.{year_2100}
use codewave_timer.Data.Migration.{migrate, migrated_task_found}

-- handleBatch over the cache in redis.
abbrev pub batch :
    {W : Type 0}
    → Config
    → Host W
    → TimerTaskRepo W
    → RedisServer W
    → Location
    → (Bytes → Exec W (Unit {0}))
    → Context
    → Bytes
    → Time
    → Time
    → Exec W (Unit {0})
batch conf host tasks s loc submit =
    handle_batch conf tasks (redis_cache s host loc conf.scheduler.buckets_num) submit

module _ {W : Type 0} (c : CronLibrary) (laws : IsCron c)
    (dated : (e : c.Expr) (t : Time) → c.next e t < year_2100) (conf : Config) (host : Host W)
    (jobs : JobRepo W) (tasks : TimerTaskRepo W) (s : RedisServer W) (redis : IsRedis s)
    (sets : HasSortedSets s) (loc : Location) (T : Time)
    (clock : (w : W) (t : Time) → (host.now w).0 ≡ ok t → t ≤ T)
    (submit : Bytes → Exec W (Unit {0})) (log : W → List Bytes)
    (takes : (key : Bytes) (w : W)
      → (submit key w).0 ≡ ok tt
      → log (submit key w).1 ≡ log w ++ key ∷ []) where
  -- A timer that has been migrated without an error at a time `now`: for each firing time of its
  -- cron expression after `now` and before two migration steps after `start`, in whole milliseconds,
  -- a batch on the slice of that time and of the timer's bucket, over an interval that holds the
  -- time, that ends without an error and reads its tasks from the cache hands the executor the key
  -- of the timer and that time. The migration ends before `T`, within a day.
  pub migrated_task_submitted :
      (timer : JobTimer) (expr : c.Expr) (start now : Time)
      → c.parse timer.cron ≡ parsed expr
      → IsInt64 timer.timer_id
      → neg_part timer.timer_id ≡ 0
      → 0 < conf.scheduler.buckets_num
      → T + millisecond ≤ now + 24 * hour
      → start + 2 * conf.migrator.migrate_step_minutes * minute < 2 ^ 63 * millisecond
      → (ctx ctx' : Context) (w : W) (u from to : Time) (found : List TaskTimer)
      → (migrate c conf host jobs tasks s loc ctx timer w).0 ≡ ok tt
      → (host.now w).0 ≡ ok start
      → (host.now (host.now w).1).0 ≡ ok now
      → laws.Fires expr u
      → now < u
      → u < start + 2 * conf.migrator.migrate_step_minutes * minute
      → u % millisecond ≡ 0
      → (get_tasks_by_time s host loc conf.scheduler.buckets_num ctx'
          (get_slice_msg_key loc u (rem_ℤ timer.timer_id conf.scheduler.buckets_num))
          (unix_milli from)
          (unix_milli to)
          (migrate c conf host jobs tasks s loc ctx timer w).1).0
        ≡ ok found
      → unix_milli from ≤ℤ unix_milli u
      → unix_milli u <ℤ unix_milli to
      → (batch conf host tasks s loc submit ctx'
          (get_slice_msg_key loc u (rem_ℤ timer.timer_id conf.scheduler.buckets_num))
          from
          to
          (migrate c conf host jobs tasks s loc ctx timer w).1).0
        ≡ ok tt
      → Has (union_timer_id_unix (to_uint64 timer.timer_id) (unix_milli u)) (
          log
            (batch conf host tasks s loc submit ctx'
              (get_slice_msg_key loc u (rem_ℤ timer.timer_id conf.scheduler.buckets_num))
              from
              to
              (migrate c conf host jobs tasks s loc ctx timer w).1).1)
  unfolding task_at redis_cache
  migrated_task_submitted timer expr start now pc fits nonneg some_bucket soon horizon ctx ctx' w u
        from to found h hs hn fires later early whole hf low high done =
      let hit =
        migrated_task_found c laws dated conf host jobs tasks s redis sets loc T clock timer expr
          start now pc fits nonneg some_bucket soon horizon ctx ctx' w u (unix_milli from)
          (unix_milli to) found h hs hn fires later early whole hf low high in
      let cache = redis_cache s host loc conf.scheduler.buckets_num in
      let taken =
        handle_batch-takes conf tasks cache submit log takes ctx'
          (get_slice_msg_key loc u (rem_ℤ timer.timer_id conf.scheduler.buckets_num)) from to
          (migrate c conf host jobs tasks s loc ctx timer w).1 found done hf in
      subst (Has (union_timer_id_unix (to_uint64 timer.timer_id) (unix_milli u))) (sym taken) (
        Has-append_right _ _ (map key_of found)
          (Has-map key_of (recalled (task_at timer u)) found hit))
