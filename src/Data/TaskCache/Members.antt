-- ===== src/Data/TaskCache/Members.antt =====
-- The members of the sorted sets of internal/data/task_cache_redis.go, and the tasks that they stand for.
use codewave_timer.Base.{
  ◌<◌, ◌+◌, ◌*◌, ◌≡◌, refl, sym, ap, ◌∙◌, arith, inl, inr, Bool, true, false, Has, List, [], ◌∷◌,
  none, Bytes, if◌then◌else◌, ℤ, pos, neg_part, negsuc, ◌≤ℤ◌, ◌<ℤ◌, ◌-ℤ◌, IsInt64, to_uint64, ok,
}
use codewave_timer.GoLib.Clock.{Time, hour, of_unix_milli}
use codewave_timer.Keys.{union_timer_id_unix, split_timer_id_unix}
use codewave_timer.Keys.TaskKey.{split_timer_id_unix-union_timer_id_unix}
use codewave_timer.Model.{TaskTimer}
use codewave_timer.Data.TaskCache.{task_of_member, tasks_of_members}

-- The member of a task in its table.
abbrev pub member_of : TaskTimer → Bytes
member_of task = union_timer_id_unix (to_uint64 task.timer_id) task.run_timer

-- A task that fits into int64, of a timer whose number is not negative, that is kept until after `T`.
pub record IsFresh (T : Time) (task : TaskTimer) : Type 0 where
  pub run : IsInt64 task.run_timer
  pub timer : IsInt64 task.timer_id
  pub nonneg : neg_part task.timer_id ≡ 0
  pub alive : T < of_unix_milli task.run_timer + 24 * hour

-- What GetTasksByTime knows of a task.
abbrev pub recalled : TaskTimer → TaskTimer
recalled task = record {
  task_id = pos 0;
  app = [];
  timer_id = task.timer_id;
  output = [];
  run_timer = task.run_timer;
  cost_time = pos 0;
  diff_time = pos 0;
  status = pos 0;
}

split_member :
    (T : Time) (task : TaskTimer)
    → IsFresh T task
    → split_timer_id_unix (member_of task) ≡ (task.timer_id, task.run_timer, none)
split_member T task h = go task.timer_id h.timer h.nonneg
  where
    go :
        (a : ℤ)
        → IsInt64 a
        → neg_part a ≡ 0
        → split_timer_id_unix (union_timer_id_unix (to_uint64 a) task.run_timer)
          ≡ (a, task.run_timer, none)
    go (pos m) small nonneg = split_timer_id_unix-union_timer_id_unix m task.run_timer small.0 h.run
    go (negsuc a) small nonneg = absurd (omega arith)

pub recalled-member :
    (T : Time) (task : TaskTimer) → IsFresh T task → task_of_member (member_of task) ≡ recalled task
unfolding task_of_member
recalled-member T task h = rw (split_member T task h)

-- Tasks of one member run at one time.
pub same_run :
    (T : Time) (t u : TaskTimer)
    → IsFresh T t
    → IsFresh T u
    → member_of t ≡ member_of u
    → t.run_timer ≡ u.run_timer
same_run T t u ht hu e = cc (ap split_timer_id_unix e, split_member T t ht, split_member T u hu)

pub either_way :
    {A : Type 0} (b : Bool) (x y : A) {z : A}
    → (b ≡ true → x ≡ z)
    → y ≡ z
    → (if b then x else y) ≡ z
either_way true x y f h = f refl
either_way false x y f h = h

pub ok-inj : {A : Type 0} {a b : A} → ok a ≡ ok b → a ≡ b
ok-inj e = cc

pub tasks_of_members-Has :
    (T : Time) (u : TaskTimer) (ms : List Bytes)
    → IsFresh T u
    → Has (member_of u) ms
    → Has (recalled u) (tasks_of_members ms)
unfolding tasks_of_members
tasks_of_members-Has T u [] hu h = elim h [ ]
tasks_of_members-Has T u (m ∷ ms) hu (inl e) =
    inl (sym (recalled-member T u hu) ∙ ap task_of_member e)
tasks_of_members-Has T u (m ∷ ms) hu (inr h) = inr (tasks_of_members-Has T u ms hu h)

pub before_end : (a b : ℤ) → a <ℤ b → a ≤ℤ b -ℤ pos 1
unfolding ◌-ℤ◌
before_end a b h = ground arith
