-- ===== src/Tests/Pass.antt =====
-- A pass of the migrator over three timers, the first of which is not enabled.
use codewave_timer.Base.{refl, arith, [], ◌∷◌, pos}
use codewave_timer.GoLib.Clock.{unix_nano_negative}
use codewave_timer.Exec.{pure}
use codewave_timer.Cron.{nexts_before, nexts_between}
use codewave_timer.Redis.{pipeline}
use codewave_timer.Keys.{get_table_name, table_bucket}
use codewave_timer.Model.{JobTimer}
use codewave_timer.Biz.Ports.{JobRepo}
use codewave_timer.Biz.Migrator.{
  migrate_enabled, migrator_timer, batch_tasks_from_timer, migrate_all, batch_migrator_timer,
}
use codewave_timer.Data.TaskCache.{batch_create_tasks, queue_tasks, redis_cache}
use codewave_timer.Data.Migration.{Stands}
use codewave_timer.Data.Migration.Pass.{whole_pass}
use codewave_timer.Data.Migration.Pass.Kept.{batch_migrated}
use codewave_timer.Tests.Server.{World, empty, server, server-IsRedis, server-HasSortedSets}
use codewave_timer.Tests.Biz.{shanghai, t0, host, ctx, jobs, timer}
use codewave_timer.Tests.Rounds.{minutely, on, short, tasks}
use codewave_timer.Tests.Migration.{minutely-IsCron, minutely-dated, soon}

abbrev another : JobTimer
another = record on { timer_id = pos 8 }

abbrev three : JobRepo World
three = record jobs { find_by_status = λ c st. pure (timer ∷ on ∷ another ∷ []) }

batch_migrated_example :
    Stands server server-HasSortedSets shanghai 5 on soon
      (whole_pass minutely short host three tasks server shanghai ctx empty).1
unfolding batch_migrator_timer migrate_all migrator_timer migrate_enabled nexts_before nexts_between
    unix_nano_negative batch_create_tasks queue_tasks get_table_name table_bucket pipeline
    redis_cache batch_tasks_from_timer minutely-IsCron
batch_migrated_example =
    batch_migrated minutely minutely-IsCron minutely-dated short host three tasks server
      server-IsRedis server-HasSortedSets shanghai t0 t0 (λ w t e. (ground arith, ground arith))
      (omega arith) (omega arith) (omega arith) on tt t0 t0 soon (timer ∷ []) (another ∷ []) ctx
      empty refl (((omega arith, refl), ((omega arith, refl), tt))) refl refl refl refl refl
      (omega arith) (omega arith) (omega arith) (omega arith)
      (record { readings = λ w h. h; pauses = λ w h. h; inserts = λ c ts w h. h })
