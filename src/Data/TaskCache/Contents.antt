-- ===== src/Data/TaskCache/Contents.antt =====
-- What the cache holds after BatchCreateTasks, and what GetTasksByTime reads from it.
use codewave_timer.Base.{
  ℕ, ◌≡◌, ap, ◌∙◌, arith, inl, inr, Has, All, All-Has, List, [], ◌∷◌, some, Bytes, ℤ, ◌≤◌, ◌≤ℤ◌,
  ◌<ℤ◌, ok,
}
use codewave_timer.GoLib.Clock.{Location, Time}
use codewave_timer.Exec.{lift, >>=-eq-ok, bind_either}
use codewave_timer.Biz.Trigger.Undisturbed.{Stays, >>=-Stays}
use codewave_timer.Redis.{RedisServer, IsRedis, HasSortedSets, pipeline}
use codewave_timer.Keys.{get_table_name}
use codewave_timer.Model.{TaskTimer}
use codewave_timer.Biz.Ports.{Context, Host}
use codewave_timer.Data.TaskCache.{add_task, queue_tasks, batch_create_tasks, get_tasks_by_time}
use codewave_timer.Data.TaskCache.Members.{member_of, IsFresh, recalled}
use codewave_timer.Data.TaskCache.Scores.{
  score-add_task_keeps, score-add_task_here, pipeline-ok, get_tasks_by_time-Has,
}

module _ {W : Type 0} (s : RedisServer W) (sets : HasSortedSets s) (host : Host W) (loc : Location)
    (n : ℕ) (T : Time) (redis : IsRedis s)
    (clock : (w : W) (t : Time) → (host.now w).0 ≡ ok t → t ≤ T) where
  open sets use {score}

  queue_tasks-keeps :
      (tasks : List TaskTimer) (queued : W → W) (w : W) (commands : W → W) (u : TaskTimer)
      (k : Bytes) (v : W)
      → All (IsFresh T) tasks
      → IsFresh T u
      → (queue_tasks s host loc n tasks queued w).0 ≡ ok commands
      → score k (member_of u) (queued v) ≡ some u.run_timer
      → score k (member_of u) (commands v) ≡ some u.run_timer
  unfolding queue_tasks
  queue_tasks-keeps [] queued w commands u k v ht hu h e = ground arith
  queue_tasks-keeps (t ∷ ts) queued w commands u k v ht hu h e =
      let (table, e1, h1, _) = >>=-eq-ok (lift (get_table_name loc n t)) _ w h in
      let (now, e2, h2, _) = >>=-eq-ok host.now _ w h1 in
      queue_tasks-keeps ts (λ w. add_task s t table now (queued w)) (host.now w).1 commands u k v
        ht.1 hu h2
        (score-add_task_keeps s sets T now t u table k (queued v) ht.0 hu (clock w now e2) e)

  -- Every task of the queue ends up in its table, with its time as its score.
  queue_tasks-writes :
      (tasks : List TaskTimer) (queued : W → W) (w : W) (commands : W → W) (u : TaskTimer)
      (table : Bytes) (v : W)
      → All (IsFresh T) tasks
      → IsFresh T u
      → (queue_tasks s host loc n tasks queued w).0 ≡ ok commands
      → Has u tasks
      → get_table_name loc n u ≡ ok table
      → score table (member_of u) (commands v) ≡ some u.run_timer
  unfolding queue_tasks
  queue_tasks-writes [] queued w commands u table v ht hu h o et = elim o [ ]
  queue_tasks-writes (t ∷ ts) queued w commands u table v ht hu h (inr o) et =
      let (table', e1, h1, _) = >>=-eq-ok (lift (get_table_name loc n t)) _ w h in
      let (now, e2, h2, _) = >>=-eq-ok host.now _ w h1 in
      queue_tasks-writes ts (λ w. add_task s t table' now (queued w)) (host.now w).1 commands u
        table v ht.1 hu h2 o et
  queue_tasks-writes (t ∷ ts) queued w commands u table v ht hu h (inl same) et =
      let (table', e1, h1, _) = >>=-eq-ok (lift (get_table_name loc n t)) _ w h in
      let (now, e2, h2, _) = >>=-eq-ok host.now _ w h1 in
      queue_tasks-keeps ts (λ w. add_task s t table' now (queued w)) (host.now w).1 commands u table
        v ht.1 hu h2
        (score-add_task_here s sets T now t u table table' (queued v) ht.0 (clock w now e2) same
          (cc (et, ap (get_table_name loc n) same, e1)))

  -- The score of a task after a batch that succeeded.
  pub batch_create_tasks-score :
      (ctx : Context) (tasks : List TaskTimer) (w : W) (u : TaskTimer) (table : Bytes)
      → All (IsFresh T) tasks
      → (batch_create_tasks s host loc n ctx tasks w).0 ≡ ok tt
      → Has u tasks
      → get_table_name loc n u ≡ ok table
      → score table (member_of u) (batch_create_tasks s host loc n ctx tasks w).1 ≡ some u.run_timer
  unfolding batch_create_tasks
  batch_create_tasks-score ctx [] w u table ht h o et = elim o [ ]
  batch_create_tasks-score ctx (t ∷ ts) w u table ht h o et =
      let (commands, e1, h1, e) =
        >>=-eq-ok (queue_tasks s host loc n (t ∷ ts) (λ w. w)) (pipeline s) w h in
      ap (λ p. score table (member_of u) p.1) e
      ∙ ap (score table (member_of u)) (pipeline-ok s sets redis commands _ h1)
      ∙ queue_tasks-writes (t ∷ ts) (λ w. w) w commands u table _ ht
          (All-Has (IsFresh T) (t ∷ ts) ht o) e1 o et

  module _ (u : TaskTimer) (k : Bytes) (fresh : IsFresh T u) where
    abbrev Kept : W → Type 0
    Kept v = score k (member_of u) v ≡ some u.run_timer

    module _ (ticks : Stays Kept host.now) where
      queue_tasks-Stays :
          (tasks : List TaskTimer) (queued : W → W)
          → Stays Kept (queue_tasks s host loc n tasks queued)
      unfolding queue_tasks
      queue_tasks-Stays [] queued w h = h
      queue_tasks-Stays (t ∷ ts) queued w h =
          >>=-Stays Kept (lift (get_table_name loc n t)) _ (λ w h. h)
            (λ table. >>=-Stays Kept host.now _ ticks (λ now. queue_tasks-Stays ts _)) w h

      -- Whatever its result, a batch leaves the score of a task that stands.
      pub batch_create_tasks-Stays :
          (ctx : Context) (tasks : List TaskTimer)
          → All (IsFresh T) tasks
          → Stays Kept (batch_create_tasks s host loc n ctx tasks)
      unfolding batch_create_tasks pipeline
      batch_create_tasks-Stays ctx [] ht w h = h
      batch_create_tasks-Stays ctx (t ∷ ts) ht w h =
          let left = queue_tasks-Stays (t ∷ ts) (λ w. w) w h in
          bind_either (λ p. Kept p.1) (queue_tasks s host loc n (t ∷ ts) (λ w. w)) (pipeline s) w
            (λ commands e.
              sent commands _ left
                (queue_tasks-keeps (t ∷ ts) (λ w. w) w commands u k _ ht fresh e left))
            (λ r f. left)
        where
          sent :
              (commands : W → W) (v : W)
              → Kept v
              → Kept (commands v)
              → Kept (pipeline s commands v).1
          sent commands v before after = elim (redis.sends (Unit {0}) (λ v. (tt, commands v)) v) [
            | inl e ↦ rw e after
            | inr (x, inl e) ↦ rw e before
            | inr (x, inr e) ↦ rw e after
          ]

  -- GetTasksByTime after a BatchCreateTasks that succeeded: every task of the batch is found in its
  -- table, with its timer and its time, when its time is in the range whose end is left out. The
  -- batch succeeds before `T`, and no task has ended its time to live by then.
  pub batch_create_tasks_cached :
      (ctx ctx' : Context) (tasks : List TaskTimer) (w : W) (u : TaskTimer) (table : Bytes)
      (start end : ℤ) (found : List TaskTimer)
      → All (IsFresh T) tasks
      → (batch_create_tasks s host loc n ctx tasks w).0 ≡ ok tt
      → Has u tasks
      → get_table_name loc n u ≡ ok table
      → (get_tasks_by_time s host loc n ctx' table start end
          (batch_create_tasks s host loc n ctx tasks w).1).0
        ≡ ok found
      → start ≤ℤ u.run_timer
      → u.run_timer <ℤ end
      → Has (recalled u) found
  batch_create_tasks_cached ctx ctx' tasks w u table start end found ht h o et hf low high =
      get_tasks_by_time-Has s sets redis host loc n ctx' table start end T u _ found
        (All-Has (IsFresh T) tasks ht o) hf (batch_create_tasks-score ctx tasks w u table ht h o et)
        low high
