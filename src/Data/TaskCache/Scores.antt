-- ===== src/Data/TaskCache/Scores.antt =====
-- The scores of the sorted sets under the commands of internal/data/task_cache_redis.go.
use codewave_timer.Base.{
  ℕ, ◌≡◌, sym, ap, ◌∙◌, arith, inl, inr, ◌&&◌, Has, subst, List, some, Bytes, bytes_eq,
  bytes_eq_refl, bytes_eq→eq, if◌then◌else◌, ℤ, pos, ◌≤◌, ◌≤ℤ◌, ◌<ℤ◌, ◌-ℤ◌, ok,
}
use codewave_timer.GoLib.Clock.{Location, Time}
use codewave_timer.Exec.{>>=-eq-ok}
use codewave_timer.Redis.{RedisServer, IsRedis, HasSortedSets, pipeline, client_zrange_by_score}
use codewave_timer.Model.{TaskTimer}
use codewave_timer.Biz.Ports.{Context, Host}
use codewave_timer.Data.TaskCache.{alive_duration, add_task, get_tasks_by_time}
use codewave_timer.Data.TaskCache.Members.{
  member_of, IsFresh, recalled, same_run, either_way, ok-inj, tasks_of_members-Has, before_end,
}

module _ {W : Type 0} (s : RedisServer W) (sets : HasSortedSets s) where
  open sets use {score}

  -- A task that the clock finds alive is written with its time as its score, and no other member's
  -- score changes.
  score-add_task :
      (task : TaskTimer) (table : Bytes) (now : Time) (k m : Bytes) (w : W)
      → pos 0 <ℤ alive_duration task now
      → score k m (add_task s task table now w) ≡ (
          if bytes_eq table k && bytes_eq (member_of task) m
          then some task.run_timer
          else score k m w)
  unfolding add_task
  score-add_task task table now k m w alive =
      sets.score-expire_after table (alive_duration task now) k m _ alive
      ∙ sets.score-zadd table (member_of task) task.run_timer k m w

  fresh_alive :
      (T now : Time) (task : TaskTimer)
      → IsFresh T task
      → now ≤ T
      → pos 0 <ℤ alive_duration task now
  unfolding alive_duration
  fresh_alive T now task h le = ground arith

  score-add_task_same :
      (T now : Time) (task : TaskTimer) (table : Bytes) (w : W)
      → IsFresh T task
      → now ≤ T
      → score table (member_of task) (add_task s task table now w) ≡ some task.run_timer
  score-add_task_same T now task table w h le = rw (
    score-add_task task table now table (member_of task) w (fresh_alive T now task h le),
    bytes_eq_refl table,
    bytes_eq_refl (member_of task),
  )

  pub score-add_task_keeps :
      (T now : Time) (t u : TaskTimer) (table k : Bytes) (w : W)
      → IsFresh T t
      → IsFresh T u
      → now ≤ T
      → score k (member_of u) w ≡ some u.run_timer
      → score k (member_of u) (add_task s t table now w) ≡ some u.run_timer
  score-add_task_keeps T now t u table k w ht hu le h =
      score-add_task t table now k (member_of u) w (fresh_alive T now t ht le)
      ∙ either_way (bytes_eq table k && bytes_eq (member_of t) (member_of u)) (some t.run_timer)
          (score k (member_of u) w)
          (λ b.
            ap some (same_run T t u ht hu (bytes_eq→eq (member_of t) (member_of u) (ground arith))))
          h

  pub score-add_task_here :
      (T now : Time) (t u : TaskTimer) (table table' : Bytes) (w : W)
      → IsFresh T t
      → now ≤ T
      → u ≡ t
      → table ≡ table'
      → score table (member_of u) (add_task s t table' now w) ≡ some u.run_timer
  score-add_task_here T now t u table table' w h le e e' =
      rw (e, e') (score-add_task_same T now t table' w h le)

  module _ (redis : IsRedis s) where
    -- A request that is answered has been run.
    send-ok :
        (A : Type 0) (f : W → A × W) (w : W) {a : A}
        → (s.send A f w).0 ≡ ok a
        → ((f w).0 ≡ a) × ((s.send A f w).1 ≡ (f w).1)
    send-ok A f w h = elim (redis.sends A f w) [
      | inl e ↦ (ok-inj (sym (ap (λ p. p.0) e) ∙ h), ap (λ p. p.1) e)
      | inr (x, inl e) ↦ absurd (cc (ap (λ p. p.0) e))
      | inr (x, inr e) ↦ absurd (cc (ap (λ p. p.0) e))
    ]

    pub pipeline-ok :
        (commands : W → W) (w : W)
        → (pipeline s commands w).0 ≡ ok tt
        → (pipeline s commands w).1 ≡ commands w
    unfolding pipeline
    pipeline-ok commands w h = (send-ok (Unit {0}) (λ v. (tt, commands v)) w h).1

    pub get_tasks_by_time-Has :
        (host : Host W) (loc : Location) (n : ℕ) (ctx : Context) (table : Bytes) (start end : ℤ)
        (T : Time) (u : TaskTimer) (w : W) (found : List TaskTimer)
        → IsFresh T u
        → (get_tasks_by_time s host loc n ctx table start end w).0 ≡ ok found
        → score table (member_of u) w ≡ some u.run_timer
        → start ≤ℤ u.run_timer
        → u.run_timer <ℤ end
        → Has (recalled u) found
    unfolding get_tasks_by_time client_zrange_by_score
    get_tasks_by_time-Has host loc n ctx table start end T u w found hu h e low high =
        let (members, e1, h1, _) =
          >>=-eq-ok (client_zrange_by_score s table start (end -ℤ pos 1)) _ w h in
        subst (Has (recalled u)) (ok-inj h1) (
          tasks_of_members-Has T u members hu (
            subst (Has (member_of u))
              (send-ok (List Bytes) (λ v. (s.zrange_by_score table start (end -ℤ pos 1) v, v)) w
                e1).0
              ((sets.zrange_by_score_iff table start (end -ℤ pos 1) (member_of u) w).1
                (u.run_timer, e, low, before_end u.run_timer end high))))
