-- ===== src/Data/Migration/Called.antt =====
-- From the migrator of internal/biz/migrator.go to a whole Work of internal/biz/trigger.go on a slice.
use codewave_timer.Base.{
  ℕ, ◌+◌, ◌*◌, ◌%◌, ◌^◌, ◌≤◌, ◌<◌, ◌≡◌, ◌≢◌, refl, sym, ap, ◌∙◌, arith, ◌⊎◌, List, [], ◌∷◌, ◌++◌,
  Has, subst, Bytes, ok, err, panic, spin, Result, Error, ℤ, neg_part, ◌≤ℤ◌, ◌<ℤ◌, IsInt64, rem_ℤ,
  to_uint64,
}
use codewave_timer.GoLib.Clock.{Time, Location, minute, hour, millisecond, unix_milli}
use codewave_timer.Exec.{Exec, outcome, attempt, >>=-eq-ok}
use codewave_timer.Config.{Config}
use codewave_timer.Cron.{CronLibrary, IsCron, parsed}
use codewave_timer.Redis.{RedisServer, IsRedis, HasSortedSets}
use codewave_timer.Keys.{get_slice_msg_key, union_timer_id_unix}
use codewave_timer.Keys.SliceKey.{HasFourDigitYear}
use codewave_timer.Model.{JobTimer, TaskTimer}
use codewave_timer.Biz.Ports.{Context, Host, JobRepo, TimerTaskRepo, TaskCache}
use codewave_timer.Biz.Migrator.{task_at}
use codewave_timer.Biz.Trigger
use codewave_timer.Biz.Trigger.{handle_batch, from_database}
use codewave_timer.Biz.Trigger.Batch.{cached_tasks}
use codewave_timer.Biz.Trigger.Run.{Event, work}
use codewave_timer.Biz.Trigger.Run.Handed.{work_hands}
use codewave_timer.Data.TaskCache.{redis_cache}
use codewave_timer.Data.TaskCache.Members.{IsFresh, recalled, ok-inj}
use codewave_timer.Data.TaskCache.Scores.{get_tasks_by_time-Has}
use codewave_timer.Data.TaskCache.Migrated.{year_2100}
use codewave_timer.Data.Migration.Left.{IsLeft, undisturbed}
use codewave_timer.Data.Migration.{migrate, Stands, migrated_score, task_of-IsFresh}

-- The key by which the executor is called.
abbrev pub call : JobTimer → Time → Bytes
call timer u = union_timer_id_unix (to_uint64 timer.timer_id) (unix_milli u)

-- The cache in redis, the slice of a time for a timer, and Work of a trigger on that slice.
module _ {W : Type 0} (conf : Config) (s : RedisServer W) (host : Host W) (loc : Location) where
  abbrev pub cache : TaskCache W
  cache = redis_cache s host loc conf.scheduler.buckets_num

  abbrev pub slice : JobTimer → Time → Bytes
  slice timer u = get_slice_msg_key loc u (rem_ℤ timer.timer_id conf.scheduler.buckets_num)

  abbrev pub triggered :
      TimerTaskRepo W
      → (Bytes → Exec W (Unit {0}))
      → Exec W (Unit {0})
      → ℕ
      → Context
      → JobTimer
      → Time
      → List Event
      → Exec W (Unit {0})
  triggered tasks submit ack gap_seconds ctx timer u events =
      work loc gap_seconds (handle_batch conf tasks cache submit ctx (slice timer u)) ack
        (slice timer u) events

module _ {W : Type 0} (c : CronLibrary) (laws : IsCron c)
    (dated : (e : c.Expr) (t : Time) → c.next e t < year_2100) (conf : Config) (host : Host W)
    (jobs : JobRepo W) (tasks : TimerTaskRepo W) (s : RedisServer W) (redis : IsRedis s)
    (sets : HasSortedSets s) (loc : Location) (T : Time)
    (clock : (w : W) (t : Time) → (host.now w).0 ≡ ok t → t ≤ T)
    (submit : Bytes → Exec W (Unit {0})) (ack : Exec W (Unit {0})) (log : W → List Bytes)
    (takes : (key : Bytes) (w : W)
      → (submit key w).0 ≡ ok tt
      → log (submit key w).1 ≡ log w ++ key ∷ []) where
  module _ (timer : JobTimer) (u : Time) (fresh : IsFresh T (task_at timer u)) (ctx : Context)
      (answers : (from to : ℤ) (w : W) (e : Error)
        → ((cache conf s host loc).get_tasks_by_time ctx
            (slice conf s host loc timer u)
            from
            to
            w).0
          ≢ err e) where
    reads_first :
        (bucket : ℤ) (from to : Time) (w : W) (found : List TaskTimer)
        → (Trigger.get_tasks_by_time conf tasks
            (cache conf s host loc)
            submit
            ctx
            (slice conf s host loc timer u)
            bucket
            from
            to
            w).0
          ≡ ok found
        → (o : List TaskTimer ⊎ Error) × (outcome
              ((cache conf s host loc).get_tasks_by_time ctx
                (slice conf s host loc timer u)
                (unix_milli from)
                (unix_milli to)
                w).0
            ≡ ok o)
    unfolding Trigger.get_tasks_by_time
    reads_first bucket from to w found h =
        let (o, e1, h1, s1) =
          >>=-eq-ok
            (attempt (
              (cache conf s host loc).get_tasks_by_time ctx (slice conf s host loc timer u)
                (unix_milli from) (unix_milli to)))
            _ w h in
        (o, e1)

    found_by :
        (bucket : ℤ) (from to : Time) (w : W) (found : List TaskTimer) (p : Result (List TaskTimer))
        → ((cache conf s host loc).get_tasks_by_time ctx
            (slice conf s host loc timer u)
            (unix_milli from)
            (unix_milli to)
            w).0
          ≡ p
        → Stands s sets loc conf.scheduler.buckets_num timer u w
        → unix_milli from ≤ℤ unix_milli u
        → unix_milli u <ℤ unix_milli to
        → (Trigger.get_tasks_by_time conf tasks
            (cache conf s host loc)
            submit
            ctx
            (slice conf s host loc timer u)
            bucket
            from
            to
            w).0
          ≡ ok found
        → Has (recalled (task_at timer u)) found
    unfolding task_at
    found_by bucket from to w found (ok read) e stands low high h =
        subst (Has (recalled (task_at timer u)))
          (ok-inj (
            sym (
              ap (λ p. p.0)
                (cached_tasks conf tasks (cache conf s host loc) submit log takes ctx
                  (slice conf s host loc timer u) from to w read e bucket))
            ∙ h))
          (get_tasks_by_time-Has s sets redis host loc conf.scheduler.buckets_num ctx
            (slice conf s host loc timer u) (unix_milli from) (unix_milli to) T (task_at timer u) w
            read fresh (unfold redis_cache in e) stands low high)
    found_by bucket from to w found (err x) e stands low high h =
        absurd (answers (unix_milli from) (unix_milli to) w x e)
    found_by bucket from to w found panic e stands low high h =
        let (o, e1) = reads_first bucket from to w found h in absurd (ground (arith, e1, e))
    found_by bucket from to w found spin e stands low high h =
        let (o, e1) = reads_first bucket from to w found h in absurd (ground (arith, e1, e))

  -- A timer that has been migrated without an error at a time `now`: for each firing time `u` of its
  -- cron expression after `now` and before two migration steps after `start`, in whole milliseconds, a
  -- Work without an error on the slice of `u` and of the timer's bucket has handed the executor the
  -- key of the timer and `u`, whatever the order in which its ticks come and its batches end. What
  -- happens from the migration to the Work, and what the pool, the database's queries and the
  -- acknowledgement do in it, leaves the task in its slice and takes back nothing that the pool has
  -- taken, and redis answers the Work's queries of the slice. The period is from 1 to 60 seconds, the
  -- year from 0 to 9999, the buckets are not 0, the timer's number is an int64 that is not negative,
  -- the cron library gives times before the year 2100 only, as documented, two migration steps after
  -- `start` are an int64 of milliseconds, and the migration ends before `T`, within a day.
  pub migrated_task_called :
      (timer : JobTimer) (expr : c.Expr) (start now : Time)
      → c.parse timer.cron ≡ parsed expr
      → IsInt64 timer.timer_id
      → neg_part timer.timer_id ≡ 0
      → 0 < conf.scheduler.buckets_num
      → T + millisecond ≤ now + 24 * hour
      → start + 2 * conf.migrator.migrate_step_minutes * minute < 2 ^ 63 * millisecond
      → (ctx ctx' : Context) (w v : W) (u : Time) (gap_seconds : ℕ) (events : List Event)
      → (migrate c conf host jobs tasks s loc ctx timer w).0 ≡ ok tt
      → (host.now w).0 ≡ ok start
      → (host.now (host.now w).1).0 ≡ ok now
      → laws.Fires expr u
      → now < u
      → u < start + 2 * conf.migrator.migrate_step_minutes * minute
      → u % millisecond ≡ 0
      → (Stands s sets loc conf.scheduler.buckets_num timer u
            (migrate c conf host jobs tasks s loc ctx timer w).1
          → Stands s sets loc conf.scheduler.buckets_num timer u v)
      → IsLeft tasks submit ack (Stands s sets loc conf.scheduler.buckets_num timer u)
      → IsLeft tasks submit ack (λ x. Has (call timer u) (log x))
      → ((from to : ℤ) (x : W) (e : Error)
          → ((cache conf s host loc).get_tasks_by_time ctx'
              (slice conf s host loc timer u)
              from
              to
              x).0
            ≢ err e)
      → HasFourDigitYear loc u
      → 0 < gap_seconds
      → gap_seconds ≤ 60
      → (triggered conf s host loc tasks submit ack gap_seconds ctx' timer u events v).0 ≡ ok tt
      → Has
          (call timer u)
          (log (triggered conf s host loc tasks submit ack gap_seconds ctx' timer u events v).1)
  unfolding task_at
  migrated_task_called timer expr start now pc fits nonneg some_bucket soon horizon ctx ctx' w v u
        gap_seconds events h hs hn fires later early whole left stays kept answers year pos_gap
        small done =
      let fresh =
        task_of-IsFresh c laws dated conf host jobs tasks s redis sets loc T clock timer expr start
          now pc fits nonneg some_bucket soon horizon u later early in
      let stands =
        migrated_score c laws dated conf host jobs tasks s redis sets loc T clock timer expr start
          now pc fits nonneg some_bucket soon horizon ctx w u h hs hn fires later early whole in
      work_hands conf tasks (cache conf s host loc) submit ack log takes ctx'
        (slice conf s host loc timer u) (recalled (task_at timer u))
        (undisturbed s redis host loc conf.scheduler.buckets_num tasks submit ack _ kept)
        (Stands s sets loc conf.scheduler.buckets_num timer u)
        (undisturbed s redis host loc conf.scheduler.buckets_num tasks submit ack _ stays)
        (λ bucket from to x found r low high e.
          found_by timer u fresh ctx' answers bucket from to x found _ refl r low high e)
        loc gap_seconds u u (rem_ℤ timer.timer_id conf.scheduler.buckets_num) events v refl year
        pos_gap small refl whole refl (left stands) done
