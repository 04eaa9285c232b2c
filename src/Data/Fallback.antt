-- ===== src/Data/Fallback.antt =====
-- The batch of a trigger when the cache fails, over the repository of internal/data/cron_task.go.
use codewave_timer.Base.{
  ◌<◌, ◌≡◌, ◌↔◌, refl, true, Has, List, Bytes, ℤ, ◌≤ℤ◌, ok, err, panic, spin, Result, Error,
}
use codewave_timer.GoLib.Clock.{Time, unix_milli}
use codewave_timer.Exec.{Exec, lift, ◌>>=◌}
use codewave_timer.Config.{Config}
use codewave_timer.Keys.{in_bucket}
use codewave_timer.Model.{TaskTimer, to_int, not_runned}
use codewave_timer.Biz.Ports.{Context, TaskCache}
use codewave_timer.Biz.Trigger.{get_tasks_by_time, from_database}
use codewave_timer.Biz.Trigger.Fallback.{valid_tasks, valid_tasks_iff}
use codewave_timer.Data.Gorm.{Gorm, HasRows, pool}
use codewave_timer.Data.Repos.{task_repo}

module _ {W : Type 0} (g : Gorm W) (laws : HasRows g) (conf : Config) (cache : TaskCache W)
    (submit : Bytes → Exec W (Unit {0})) where
  -- What the fallback makes of the query of the database, which is asked in the world `w`: the rows
  -- that it may take, or the query's own failure.
  abbrev pub FallsBack :
      ℤ → Time → Time → W → Result (List TaskTimer) × W → Result (List TaskTimer) × W → Type 0
  FallsBack bucket start end w (ok read, w') p =
      (found : List TaskTimer) × (p ≡ (ok found, w'))
      × ((t : TaskTimer)
          → Has t found ↔ (
              Has t (laws.rows w)
              × (unix_milli start ≤ℤ t.run_timer)
              × (t.run_timer ≤ℤ unix_milli end)
              × (t.status ≡ to_int not_runned)
              × (in_bucket conf.scheduler.buckets_num bucket t ≡ ok true)))
  FallsBack bucket start end w (err e, w') p = p ≡ (err e, w')
  FallsBack bucket start end w (panic, w') p = p ≡ (panic, w')
  FallsBack bucket start end w (spin, w') p = p ≡ (spin, w')

  -- When the cache fails and there are buckets, the batch of a trigger is read from the database: if
  -- the query succeeds, exactly the rows that have not run, that belong to the bucket, and whose time
  -- is between start and end, with both ends; if it fails, the batch fails in the same way. Nothing
  -- but the query touches the world. The cache leaves `end` out, so that a task at the end of one
  -- batch is at the start of the next.
  pub get_tasks_by_time_fallback :
      (ctx : Context) (key : Bytes) (bucket : ℤ) (start end : Time) (w w' : W) (e : Error)
      → 0 < conf.scheduler.buckets_num
      → cache.get_tasks_by_time ctx key (unix_milli start) (unix_milli end) w ≡ (err e, w')
      → FallsBack bucket start end w'
          (g.find_tasks pool (unix_milli start) (unix_milli end) (to_int not_runned) w')
          (get_tasks_by_time conf (task_repo g) cache submit ctx key bucket start end w)
  unfolding get_tasks_by_time from_database task_repo
  get_tasks_by_time_fallback ctx key bucket start end w w' e some_bucket fails = rw fails (
      asked (g.find_tasks pool (unix_milli start) (unix_milli end) (to_int not_runned) w')
        (λ found h. laws.find_tasks_iff _ _ _ w' found h))
    where
      asked :
          (q : Result (List TaskTimer) × W)
          → ((found : List TaskTimer)
              → q.0 ≡ ok found
              → (t : TaskTimer)
              → Has t found ↔ (
                  Has t (laws.rows w')
                  × (unix_milli start ≤ℤ t.run_timer)
                  × (t.run_timer ≤ℤ unix_milli end)
                  × (t.status ≡ to_int not_runned)))
          → FallsBack bucket start end w' q (
              ((λ (v : W). q) >>= λ rows. lift (valid_tasks conf.scheduler.buckets_num bucket rows))
                w')
      asked (ok rows, v) in_rows =
          let (kept, filtered, in_kept) =
            valid_tasks_iff conf.scheduler.buckets_num bucket rows some_bucket in
          (
            kept,
            rw filtered refl,
            λ t. (
              λ h.
                  let (r, b) = (in_kept t).0 h in
                  let (a, l, u, s) = (in_rows rows refl t).0 r in (a, l, u, s, b),
              λ (a, l, u, s, b). (in_kept t).1 ((in_rows rows refl t).1 (a, l, u, s), b),
            ),
          )
      asked (err x, v) in_rows = refl
      asked (panic, v) in_rows = refl
      asked (spin, v) in_rows = refl
