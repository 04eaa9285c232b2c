-- ===== src/Biz/Executor/Recorded.antt =====
-- What the executor of internal/biz/executor.go writes down.
use codewave_timer.Base.{
  ◌≡◌, ◌≢◌, refl, sym, ap, subst, ◌∙◌, arith, Bool-cases, ◌⊎◌, inl, inr, ℤ, pos, ◌-ℤ◌, to_int64,
  to_uint64, eqb_ℤ, eqb_ℤ→eq, if◌then◌else◌, Option, some, none, Bytes, Result, ok, err, panic,
  spin, Error, task_failed, timer_failed,
}
use codewave_timer.GoLib.Clock.{Time, unix_milli}
use codewave_timer.Exec.{Exec, pure, raise, attempt, >>=-eq-ok}
use codewave_timer.Keys.{split_timer_id_unix}
use codewave_timer.Model.{JobTimer, TaskTimer, timer_to_int, enabled}
use codewave_timer.Biz.Ports.{Context, JobRepo, TimerTaskRepo, Host}
use codewave_timer.Biz.Executor.{
  Caller, execute, with_outcome, with_times, post_process, wrapped, run_enabled, work_on,
  execute_and_post_process, work,
}

wrapped-pair :
    {W A : Type 0} (wrap : Error → Error) (p : Result A × W) {a : A}
    → (wrapped wrap (λ (w : W). p) p.1).0 ≡ ok a
    → wrapped wrap (λ (w : W). p) p.1 ≡ p
wrapped-pair wrap (ok a, w) h = refl
wrapped-pair wrap (err e, w) h = absurd (ground arith)
wrapped-pair wrap (panic, w) h = absurd (ground arith)
wrapped-pair wrap (spin, w) h = absurd (ground arith)

-- A call that succeeds under a wrap of its error.
wrapped-ok :
    {W A : Type 0} (wrap : Error → Error) (m : Exec W A) (w : W) {a : A}
    → (wrapped wrap m w).0 ≡ ok a
    → wrapped wrap m w ≡ m w
wrapped-ok wrap m w h = wrapped-pair wrap (m w) h

module _ {W : Type 0} (host : Host W) (jobs : JobRepo W) (tasks : TimerTaskRepo W)
    (caller : Caller W) where
  -- The task as it is written: with the answer and the status 2 of a success, or with the text of the
  -- error and the status 3 of a failure, with the milliseconds from its own time to the beginning of
  -- the call and with those from there to `now`; the rest is as it was read.
  abbrev pub written : caller.Answer ⊎ Error → Time → Time → TaskTimer → TaskTimer
  written o exec_time now task = record {
    task_id = task.task_id;
    app = task.app;
    timer_id = task.timer_id;
    output = elim o [ inl resp ↦ caller.write_answer resp | inr e ↦ caller.error_text e ];
    run_timer = task.run_timer;
    cost_time = to_int64 (to_uint64 (unix_milli now -ℤ unix_milli exec_time));
    diff_time = to_int64 (to_uint64 (unix_milli exec_time -ℤ task.run_timer));
    status = elim o [ inl resp ↦ pos 2 | inr e ↦ pos 3 ];
  }

  written_lem :
      (o : caller.Answer ⊎ Error) (exec_time now : Time) (task : TaskTimer)
      → with_times host jobs tasks caller exec_time now (with_outcome host jobs tasks caller o task)
        ≡ written o exec_time now task
  unfolding with_times with_outcome
  written_lem (inl resp) exec_time now task = refl
  written_lem (inr e) exec_time now task = refl

  -- The task of that timer and time has been read and written back; `p` is the final result.
  abbrev pub Recorded :
      Context → caller.Answer ⊎ Error → ℤ → ℤ → Time → W → Result (Unit {0}) × W → Type 0
  Recorded ctx o id unix exec_time w p =
      (task saved : TaskTimer) × (now : Time) × (w1 : W)
      × ((tasks.get_tasks_by_timer_id_and_run_timer ctx id unix w).0 ≡ ok task)
      × (host.now (tasks.get_tasks_by_timer_id_and_run_timer ctx id unix w).1 ≡ (ok now, w1))
      × (tasks.update ctx (written o exec_time now task) w1 ≡ (ok saved, p.1))

  post_process-ok :
      (ctx : Context) (o : caller.Answer ⊎ Error) (id unix : ℤ) (exec_time : Time) (w : W)
      → (post_process host jobs tasks caller ctx o id unix exec_time w).0 ≡ ok tt
      → Recorded ctx o id unix exec_time w
          (post_process host jobs tasks caller ctx o id unix exec_time w)
  unfolding post_process
  post_process-ok ctx o id unix exec_time w h =
      let (task, e1, h1, s1) =
        >>=-eq-ok (wrapped task_failed (tasks.get_tasks_by_timer_id_and_run_timer ctx id unix)) _ w
          h in
      let r1 =
        wrapped-ok task_failed (tasks.get_tasks_by_timer_id_and_run_timer ctx id unix) w e1 in
      let (now, e2, h2, s2) = >>=-eq-ok host.now _ _ h1 in
      let w2 : W =
        (host.now
          (wrapped task_failed (tasks.get_tasks_by_timer_id_and_run_timer ctx id unix) w).1).1 in
      let save : Exec W TaskTimer = tasks.update ctx (
        with_times host jobs tasks caller exec_time now
          (with_outcome host jobs tasks caller o task)) in
      let (saved, e3, h3, s3) = >>=-eq-ok (wrapped task_failed save) _ w2 h2 in
      let r3 = wrapped-ok task_failed save w2 e3 in
      let e : Path W (save w2).1 (post_process host jobs tasks caller ctx o id unix exec_time w).1 =
        sym (ap (λ p. p.1) r3) ∙ sym (ap (λ p. p.1) (s1 ∙ s2 ∙ s3)) in
      (
        task,
        saved,
        now,
        w2,
        sym (ap (λ p. p.0) r1) ∙ e1,
        ap (λ p. host.now p.1) (sym r1) ∙ (λ i. (e2 i, w2)),
        ap (λ (t : TaskTimer). tasks.update ctx t w2) (sym (written_lem o exec_time now task))
            ∙ (λ i. ((sym (ap (λ p. p.0) r3) ∙ e3) i, e i)),
      )

  -- The callback of a timer: its settings are read, and posted if they can be.
  abbrev pub callback : JobTimer → Exec W caller.Answer
  callback timer = elim (caller.read_param timer.notify_http_param) [
    | inl param ↦ caller.post param
    | inr e ↦ raise e
  ]

  -- A timer that is not enabled is passed over; that of an enabled one is called, and what came of it
  -- is recorded.
  abbrev pub Worked : Context → ℤ → ℤ → W → Result (Unit {0}) × W → Type 0
  Worked ctx id unix w p =
      let w1 = (jobs.find_by_id ctx id w).1 in
      (timer : JobTimer) × ((jobs.find_by_id ctx id w).0 ≡ ok timer)
      × (((timer.status ≢ timer_to_int enabled) × (p ≡ (ok tt, w1)))
          ⊎ ((timer.status ≡ timer_to_int enabled)
              × ((exec_time : Time) × (o : caller.Answer ⊎ Error) × ((host.now w1).0 ≡ ok exec_time)
                  × ((attempt (callback timer) (host.now w1).1).0 ≡ ok o)
                  × Recorded ctx o id unix exec_time (attempt (callback timer) (host.now w1).1).1
                      p)))

  run_enabled-ok :
      (ctx : Context) (timer : JobTimer) (id unix : ℤ) (w : W)
      → (run_enabled host jobs tasks caller ctx timer id unix w).0 ≡ ok tt
      → (exec_time : Time) × (o : caller.Answer ⊎ Error) × ((host.now w).0 ≡ ok exec_time)
        × ((attempt (callback timer) (host.now w).1).0 ≡ ok o)
        × Recorded ctx o id unix exec_time
            (attempt (callback timer) (host.now w).1).1
            (run_enabled host jobs tasks caller ctx timer id unix w)
  unfolding run_enabled execute
  run_enabled-ok ctx timer id unix w h =
      let (exec_time, e1, h1, s1) = >>=-eq-ok host.now _ w h in
      let (o, e2, h2, s2) = >>=-eq-ok (attempt (callback timer)) _ (host.now w).1 h1 in
      (
        exec_time,
        o,
        e1,
        e2,
        subst (Recorded ctx o id unix exec_time (attempt (callback timer) (host.now w).1).1)
            (sym (s1 ∙ s2)) (post_process-ok ctx o id unix exec_time _ h2),
      )

  -- The guard on the status.
  guarded :
      (ctx : Context) (timer : JobTimer) (id unix : ℤ) (w : W) (p : Result (Unit {0}) × W)
      → (jobs.find_by_id ctx id w).0 ≡ ok timer
      → p.0 ≡ ok tt
      → p
        ≡ (if eqb_ℤ timer.status (timer_to_int enabled)
              then run_enabled host jobs tasks caller ctx timer id unix
              else pure tt)
            (jobs.find_by_id ctx id w).1
      → Worked ctx id unix w p
  guarded ctx timer id unix w p found fine e =
      elim (Bool-cases (eqb_ℤ timer.status (timer_to_int enabled))) [
        | inr other ↦ (timer, found, inl (λ same. ground arith, rw other at e))
        | inl same ↦
            let e' : p
                ≡ run_enabled host jobs tasks caller ctx timer id unix
                    (jobs.find_by_id ctx id w).1 =
              rw same at e in
            let (exec_time, o, e1, e2, rec) =
              run_enabled-ok ctx timer id unix (jobs.find_by_id ctx id w).1
                (sym (ap (λ q. q.0) e') ∙ fine) in
            (
              timer,
              found,
              inr (
                eqb_ℤ→eq timer.status (timer_to_int enabled) same,
                (exec_time, o, e1, e2, subst (Recorded ctx o id unix exec_time _) (sym e') rec),
              ),
            )
      ]

  execute_and_post_process-ok :
      (ctx : Context) (id unix : ℤ) (w : W)
      → (execute_and_post_process host jobs tasks caller ctx id unix w).0 ≡ ok tt
      → Worked ctx id unix w (execute_and_post_process host jobs tasks caller ctx id unix w)
  unfolding execute_and_post_process
  execute_and_post_process-ok ctx id unix w h =
      let (timer, e1, h1, s1) = >>=-eq-ok (wrapped timer_failed (jobs.find_by_id ctx id)) _ w h in
      let r1 = wrapped-ok timer_failed (jobs.find_by_id ctx id) w e1 in
      guarded ctx timer id unix w _ (sym (ap (λ p. p.0) r1) ∙ e1) h (
        s1
        ∙ ap
            (λ p.
              (if eqb_ℤ timer.status (timer_to_int enabled)
                  then run_enabled host jobs tasks caller ctx timer id unix
                  else pure tt)
                p.1)
            r1)

  work_on-ok :
      (ctx : Context) (key : ℤ × ℤ × Option Error) (w : W)
      → (work_on host jobs tasks caller ctx key w).0 ≡ ok tt
      → (id unix : ℤ) × (key ≡ (id, unix, none))
        × Worked ctx id unix w (work_on host jobs tasks caller ctx key w)
  unfolding work_on
  work_on-ok ctx (id, unix, some e) w h = absurd (ground arith)
  work_on-ok ctx (id, unix, none) w h =
      (id, unix, refl, execute_and_post_process-ok ctx id unix w h)

  -- Work of the executor without an error: the key is that of a timer and a time. A timer that was not
  -- enabled has been passed over; for one that was, its callback has been made, and the task of that
  -- timer and time has been written with the answer and the status 2 if the callback succeeded, or
  -- with the text of its error and the status 3, and with its delay and its duration in milliseconds.
  pub work-ok :
      (ctx : Context) (key : Bytes) (w : W)
      → (work host jobs tasks caller ctx key w).0 ≡ ok tt
      → (id unix : ℤ) × (split_timer_id_unix key ≡ (id, unix, none))
        × Worked ctx id unix w (work host jobs tasks caller ctx key w)
  unfolding work
  work-ok ctx key w h = work_on-ok ctx (split_timer_id_unix key) w h
