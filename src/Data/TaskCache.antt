-- ===== src/Data/TaskCache.antt =====
-- The tasks in redis, one sorted set for each minute and bucket: internal/data/task_cache_redis.go.
pub mod Members
pub mod Scores
pub mod Contents
pub mod Migrated
use codewave_timer.Base.{ℕ, ◌+◌, ◌*◌, sub_ℕ, List, [], ◌∷◌, Bytes, ℤ, pos, ◌-ℤ◌, to_uint64}
use codewave_timer.GoLib.Clock.{Location, Time, hour, of_unix_milli}
use codewave_timer.Exec.{Exec, pure, lift, ◌>>=◌}
use codewave_timer.Redis.{RedisServer, pipeline, client_zrange_by_score}
use codewave_timer.Keys.{get_table_name, union_timer_id_unix, split_timer_id_unix}
use codewave_timer.Model.{TaskTimer}
use codewave_timer.Biz.Ports.{Context, TaskCache, Host}

-- The task of a member; an error of SplitTimerIDUnix is dropped.
unfoldable pub task_of_member : Bytes → TaskTimer
task_of_member timer_id_unix =
    let (timer_id, unix, _) = split_timer_id_unix timer_id_unix in
    record {
      task_id = pos 0;
      app = [];
      timer_id = timer_id;
      output = [];
      run_timer = unix;
      cost_time = pos 0;
      diff_time = pos 0;
      status = pos 0;
    }

unfoldable pub tasks_of_members : List Bytes → List TaskTimer
tasks_of_members [] = []
tasks_of_members (m ∷ ms) = task_of_member m ∷ tasks_of_members ms

-- `time.Until(time.UnixMilli(task.RunTimer).Add(24 * time.Hour))`
unfoldable pub alive_duration : TaskTimer → Time → ℤ
alive_duration task now = sub_ℕ (of_unix_milli task.run_timer + 24 * hour) now

-- The two commands that a task queues.
unfoldable pub add_task : {W : Type 0} → RedisServer W → TaskTimer → Bytes → Time → W → W
unfolding alive_duration
add_task s task table now w =
    s.expire_after table (alive_duration task now)
      (s.zadd table task.run_timer (union_timer_id_unix (to_uint64 task.timer_id) task.run_timer) w)

module _ {W : Type 0} (s : RedisServer W) (host : Host W) (loc : Location) (buckets_num : ℕ) where
  -- The queue of a pipeline for all tasks, behind what is queued already.
  unfoldable pub queue_tasks : List TaskTimer → (W → W) → Exec W (W → W)
  unfolding add_task
  queue_tasks [] queued = pure queued
  queue_tasks (task ∷ tasks) queued = lift (get_table_name loc buckets_num task) >>= λ table.
      host.now >>= λ now. queue_tasks tasks (λ w. add_task s task table now (queued w))

  unfoldable pub batch_create_tasks : Context → List TaskTimer → Exec W (Unit {0})
  unfolding queue_tasks
  batch_create_tasks ctx [] = pure tt
  batch_create_tasks ctx (task ∷ tasks) =
      queue_tasks (task ∷ tasks) (λ w. w) >>= λ commands. pipeline s commands

  -- ZRANGEBYSCORE takes both ends; `end` is left out.
  unfoldable pub get_tasks_by_time : Context → Bytes → ℤ → ℤ → Exec W (List TaskTimer)
  unfolding tasks_of_members
  get_tasks_by_time ctx table start end =
      client_zrange_by_score s table start (end -ℤ pos 1) >>= λ members.
      pure (tasks_of_members members)

  unfoldable pub redis_cache : TaskCache W
  unfolding batch_create_tasks get_tasks_by_time
  redis_cache = record {
    batch_create_tasks = batch_create_tasks;
    get_tasks_by_time = get_tasks_by_time;
  }
