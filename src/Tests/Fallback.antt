-- ===== src/Tests/Fallback.antt =====
-- A database with one task, read by a trigger whose cache fails.
use codewave_timer.Base.{
  ◌+◌, ◌*◌, ◌≡◌, ◌↔◌, refl, sym, subst, arith, inl, inr, Bool, true, false, ◌&&◌, Has, List, [],
  ◌∷◌, ℤ, pos, ◌≤ℤ◌, leb_ℤ, eqb_ℤ, if◌then◌else◌, Bytes, codes, foreign,
}
use codewave_timer.GoLib.Clock.{unix_milli, second}
use codewave_timer.Exec.{Exec, pure, raise}
use codewave_timer.Config.{shipped}
use codewave_timer.Model.{TaskTimer, to_int, not_runned}
use codewave_timer.Biz.Ports.{TaskCache}
use codewave_timer.Biz.Trigger.{get_tasks_by_time}
use codewave_timer.Data.Gorm.{Gorm, HasRows, pool}
use codewave_timer.Data.TaskCache.Members.{ok-inj}
use codewave_timer.Data.Repos.{task_repo}
use codewave_timer.Data.Fallback.{FallsBack, get_tasks_by_time_fallback}
use codewave_timer.Tests.Server.{World, empty}
use codewave_timer.Tests.Biz.{task, timer, ctx, t0}

abbrev pub matches : ℤ → ℤ → ℤ → Bool
matches low high status =
    leb_ℤ low task.run_timer && (leb_ℤ task.run_timer high && eqb_ℤ task.status status)

abbrev pub one_task : Gorm World
one_task = record {
  create_timer = λ h t. pure t;
  update_timer = λ h id t. pure tt;
  delete_timer = λ h id. pure tt;
  first_timer = λ h id. pure timer;
  find_timers = λ h st. pure [];
  create_tasks = λ h ts. pure tt;
  update_task = λ h id t. pure tt;
  find_tasks = λ h low high st. pure (if matches low high st then task ∷ [] else []);
  first_task = λ h id unix. pure task;
  transaction = λ m. m;
}

matches_iff :
    (low high status : ℤ)
    → (matches low high status ≡ true)
      ↔ ((low ≤ℤ task.run_timer) × (task.run_timer ≤ℤ high) × (task.status ≡ status))
matches_iff low high status = ground arith

kept_iff :
    (c : Bool) (t : TaskTimer) (P : TaskTimer → Type 0)
    → (c ≡ true) ↔ P task
    → Has t (if c then task ∷ [] else []) ↔ (Has t (task ∷ []) × P t)
kept_iff true t P h =
    (λ o. elim o [ inl e ↦ (inl e, subst P (sym e) (h.0 refl)) | inr f ↦ absurd f ], λ o. o.0)
kept_iff false t P h =
    (λ o. absurd o, λ (o, p). elim o [ inl e ↦ absurd (cc (h.1 (subst P e p))) | inr f ↦ absurd f ])

one_task-HasRows : HasRows one_task
one_task-HasRows = record {
  rows = λ w. task ∷ [];
  find_tasks_iff = λ low high status w found h t.
      let iff : Has t (if matches low high status then task ∷ [] else []) ↔ (
          Has t (task ∷ [])
          × ((low ≤ℤ t.run_timer) × (t.run_timer ≤ℤ high) × (t.status ≡ status))) =
        kept_iff (matches low high status) t
          (λ u. (low ≤ℤ u.run_timer) × (u.run_timer ≤ℤ high) × (u.status ≡ status))
          (matches_iff low high status) in
      subst
        (λ (f : List TaskTimer). Has t f ↔ (
          Has t (task ∷ []) × (low ≤ℤ t.run_timer) × (t.run_timer ≤ℤ high) × (t.status ≡ status)))
        (ok-inj h)
        (λ o. let (a, p) = iff.0 o in (a, p.0, p.1, p.2), λ (a, l, u, st). iff.1 (a, (l, u, st)));
}

abbrev no_cache : TaskCache World
no_cache = record {
  batch_create_tasks = λ c ts. raise (foreign 3);
  get_tasks_by_time = λ c k a b. raise (foreign 3);
}

abbrev submit : Bytes → Exec World (Unit {0})
submit key = pure tt

fallback_example :
    FallsBack one_task one_task-HasRows shipped no_cache submit
      (pos 2)
      t0
      (t0 + 12 * second)
      empty
      (one_task.find_tasks pool
        (unix_milli t0)
        (unix_milli (t0 + 12 * second))
        (to_int not_runned)
        empty)
      (get_tasks_by_time shipped
        (task_repo one_task)
        no_cache
        submit
        ctx
        (codes "key")
        (pos 2)
        t0
        (t0 + 12 * second)
        empty)
fallback_example =
    get_tasks_by_time_fallback one_task one_task-HasRows shipped no_cache submit ctx (codes "key")
      (pos 2) t0 (t0 + 12 * second) empty empty (foreign 3) (omega arith) refl
