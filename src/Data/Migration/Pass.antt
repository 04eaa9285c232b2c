-- ===== src/Data/Migration/Pass.antt =====
-- All timers in one pass of the migrator: BatchMigratorTimer of internal/biz/migrator.go, over the cache
-- in redis.
pub mod Kept
use codewave_timer.Base.{
  ◌+◌, ◌*◌, ◌%◌, ◌^◌, ◌≤◌, ◌<◌, ◌≡◌, refl, sym, subst, ap, ◌∙◌, arith, inl, inr, List, [], ◌∷◌,
  ◌++◌, All, ok, neg_part, IsInt64, rem_ℤ, Bool-cases, eqb_ℤ, Result, ◌⊎◌, Error,
}
use codewave_timer.GoLib.Clock.{Time, Location, minute, second, hour, millisecond}
use codewave_timer.Config.{Config}
use codewave_timer.Exec.{Exec, lift, attempt, ◌>>=◌, >>=-eq-ok, bind_either}
use codewave_timer.Cron.{CronLibrary, IsCron, parsed, nexts_before, nexts_between}
use codewave_timer.Cron.Nexts.{Chain-fires, nexts_between-Chain, parse_cases}
use codewave_timer.Redis.{RedisServer, IsRedis, HasSortedSets}
use codewave_timer.Keys.{get_slice_msg_key}
use codewave_timer.Model.{JobTimer, TaskTimer, timer_to_int, enabled}
use codewave_timer.Biz.Ports.{Context, Host, JobRepo, TimerTaskRepo}
use codewave_timer.Biz.Migrator.{
  task_at, batch_tasks_from_timer, migrate_enabled, migrator_timer, migrate_all,
  batch_migrator_timer,
}
use codewave_timer.Biz.Trigger.Undisturbed.{Stays, >>=-Stays}
use codewave_timer.Data.TaskCache.{redis_cache, batch_create_tasks}
use codewave_timer.Data.TaskCache.Members.{IsFresh}
use codewave_timer.Data.TaskCache.Contents.{batch_create_tasks-Stays}
use codewave_timer.Data.TaskCache.Migrated.{year_2100, tasks-IsFresh, Chain-dated}
use codewave_timer.Data.Migration.{Stands, migrate, migrated_score, task_of-IsFresh}

-- A timer with a number that the cache can read back.
abbrev pub IsNumbered : JobTimer → Type 0
IsNumbered timer = IsInt64 timer.timer_id × (neg_part timer.timer_id ≡ 0)

-- What the clock, a pause and the database's inserts leave of the world.
pub record IsLeftByPass {W : Type 0} (host : Host W) (tasks : TimerTaskRepo W) (P : W → Type 0)
    : Type 0 where
  pub readings : Stays P host.now
  pub pauses : Stays P (host.sleep (5 * second))
  pub inserts : (ctx : Context) (ts : List TaskTimer) → Stays P (tasks.batch_save ctx ts)

module _ {W : Type 0} (c : CronLibrary) (conf : Config) (host : Host W) (jobs : JobRepo W)
    (tasks : TimerTaskRepo W) (s : RedisServer W) (loc : Location) where
  abbrev pub pass : Context → List JobTimer → Exec W (Unit {0})
  pass = migrate_all c conf host jobs tasks (redis_cache s host loc conf.scheduler.buckets_num)

  abbrev pub whole_pass : Context → Exec W (Unit {0})
  whole_pass =
      batch_migrator_timer c conf host jobs tasks
        (redis_cache s host loc conf.scheduler.buckets_num)

  -- A timer whose migration returns, with or without an error, is passed over.
  pass-next :
      (ctx : Context) (other : JobTimer) (others : List JobTimer) (w : W) {o : Unit {0} ⊎ Error}
      → (attempt (migrate c conf host jobs tasks s loc ctx other) w).0 ≡ ok o
      → (host.sleep (5 * second) (migrate c conf host jobs tasks s loc ctx other w).1).0 ≡ ok tt
      → pass ctx (other ∷ others) w
        ≡ pass ctx others
            (host.sleep (5 * second) (migrate c conf host jobs tasks s loc ctx other w).1).1
  unfolding migrate_all
  pass-next ctx other others w e1 e2 = rw (e1, e2) refl

  -- A pass that returns has waited after its first timer.
  pass-first :
      (ctx : Context) (other : JobTimer) (others : List JobTimer) (w : W)
      → (pass ctx (other ∷ others) w).0 ≡ ok tt
      → (o : Unit {0} ⊎ Error) × ((attempt (migrate c conf host jobs tasks s loc ctx other) w).0
          ≡ ok o)
        × ((host.sleep (5 * second) (migrate c conf host jobs tasks s loc ctx other w).1).0 ≡ ok tt)
  unfolding migrate_all
  pass-first ctx other others w h =
      let (o, e1, h1, s1) =
        >>=-eq-ok (attempt (migrate c conf host jobs tasks s loc ctx other)) _ w h in
      let (p, e2, h2, s2) =
        >>=-eq-ok (host.sleep (5 * second)) _ (migrate c conf host jobs tasks s loc ctx other w).1
          h1 in
      (o, e1, e2)
