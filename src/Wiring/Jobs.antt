-- ===== src/Wiring/Jobs.antt =====
-- The start of tracing and of the two jobs in NewServiceContext of internal/svc/servicecontext.go.
use codewave_timer.Base.{
  ℕ, ◌≡◌, refl, ap, ◌⊎◌, inl, inr, List, [], ◌∷◌, ◌++◌, Bytes, false, Result, ok, err, panic, spin,
  Error,
}
use codewave_timer.Exec.{attempt, ◌>>=◌, IsFailed, bind_either}
use codewave_timer.Trace.{
  Values, background, with_value, init_tracer_provider, trace_id_from_context,
}
use codewave_timer.TimerTask.{
  Process, goes, on_world, fatalf, go, new_timer_task, start, add_startup_job, add_recurring_job,
  added_or_not,
}
use codewave_timer.UseCases.{SchedulerUseCase, MigratorUseCase}
use codewave_timer.Wiring.{
  Job, schedules, migrates, State, Libraries, job_trace_key, collector, every_half_hour,
  tracer_or_fatal, add_jobs, begin_jobs, start_jobs, on_outside,
}

module _ {W S : Type 0} (lib : Libraries W S) where
  open lib use {sql, ants, otel, robfig}

  abbrev pub At : Type 0
  At = Process (Job W ants.Pool) (State W sql.Db S)

  abbrev pub traced_by : Bytes → Values
  traced_by trace_id = with_value background job_trace_key trace_id

  -- The scheduler has begun, and the migrator has been handed to the cron library, both under the
  -- trace `trace_id`; nothing else has begun.
  pub record BothJobs (scheduler_uc : SchedulerUseCase W ants.Pool)
      (migrator_uc : MigratorUseCase W) (p q : At) : Type 0 where
    pub trace_id : Bytes
    pub cron : robfig.Cron
    pub entry : ℕ
    pub before : State W sql.Db S
    pub begun : q.begun ≡ p.begun ++ schedules scheduler_uc (traced_by trace_id) ∷ []
    pub goes_on : q.exited ≡ p.exited
    pub recurring :
        robfig.add_func cron every_half_hour
          (goes (migrates migrator_uc (traced_by trace_id)))
          before
        ≡ (ok entry, q.world)

  -- How the start of the jobs ends.
  abbrev pub Ends :
      {A : Type 0} → SchedulerUseCase W ants.Pool → MigratorUseCase W → At → Result A × At → Type 0
  Ends {A} scheduler_uc migrator_uc p q =
      (((x : A) × (q.0 ≡ ok x)) × BothJobs scheduler_uc migrator_uc p q.1)
      ⊎ (IsFailed q.0
          × ((q.1.begun ≡ p.begun)
              ⊎ ((trace_id : Bytes) × (q.1.begun
                    ≡ p.begun ++ schedules scheduler_uc (traced_by trace_id) ∷ []))))

  module _ (scheduler_uc : SchedulerUseCase W ants.Pool) (migrator_uc : MigratorUseCase W)
      (p : At) where
    added :
        (tp : otel.TracerProvider) (cron : robfig.Cron) (trace_id : Bytes) (v : At)
        → v.begun ≡ p.begun
        → v.exited ≡ p.exited
        → Ends scheduler_uc migrator_uc p (add_jobs lib scheduler_uc migrator_uc tp cron trace_id v)
    unfolding add_jobs add_startup_job go add_recurring_job added_or_not on_world fatalf
    added tp cron trace_id v begun goes_on =
        go_on
          (robfig.add_func cron every_half_hour (goes (migrates migrator_uc (traced_by trace_id)))
            v.world)
          refl
      where
        job : List (Job W ants.Pool)
        job = schedules scheduler_uc (traced_by trace_id) ∷ []

        go_on :
            (r : Result ℕ × State W sql.Db S)
            → robfig.add_func cron every_half_hour
                (goes (migrates migrator_uc (traced_by trace_id)))
                v.world
              ≡ r
            → Ends {A = otel.TracerProvider × robfig.Cron} scheduler_uc migrator_uc p (
                (attempt (on_world (λ w. r)) >>= added_or_not robfig >>= λ u.
                λ w. (ok (tp, cron), w))
                  (record v { begun = v.begun ++ job }))
        go_on (ok id, w) e = inl (
          (_, refl),
          record {
            trace_id = trace_id;
            cron = cron;
            entry = id;
            before = v.world;
            begun = ap (λ (l : List (Job W ants.Pool)). l ++ job) begun;
            goes_on = goes_on;
            recurring = e;
          },
        )
        go_on (err e, w) h =
            inr (tt, inr (trace_id, ap (λ (l : List (Job W ants.Pool)). l ++ job) begun))
        go_on (panic, w) h =
            inr (tt, inr (trace_id, ap (λ (l : List (Job W ants.Pool)). l ++ job) begun))
        go_on (spin, w) h =
            inr (tt, inr (trace_id, ap (λ (l : List (Job W ants.Pool)). l ++ job) begun))

    begin_jobs-Ends :
        (tp : otel.TracerProvider) (v : At)
        → v.begun ≡ p.begun
        → v.exited ≡ p.exited
        → Ends scheduler_uc migrator_uc p (begin_jobs lib scheduler_uc migrator_uc tp v)
    unfolding begin_jobs new_timer_task start on_world
    begin_jobs-Ends tp v begun goes_on =
        let (cron, w) = robfig.new_cron v.world in
        bind_either (Ends scheduler_uc migrator_uc p) (on_world (on_outside lib.new_uuid))
          (add_jobs lib scheduler_uc migrator_uc tp cron)
          (record v { world = robfig.start_cron cron w })
          (λ trace_id drawn. added tp cron trace_id _ begun goes_on) (λ r f. inr (f, inl begun))

    traced :
        (o : otel.TracerProvider ⊎ Error) (v : At)
        → v.begun ≡ p.begun
        → v.exited ≡ p.exited
        → Ends scheduler_uc migrator_uc p
            ((tracer_or_fatal lib o >>= begin_jobs lib scheduler_uc migrator_uc) v)
    unfolding tracer_or_fatal fatalf
    traced (inl tp) v begun goes_on = begin_jobs-Ends tp v begun goes_on
    traced (inr e) v begun goes_on = inr (tt, inl begun)

    pub start_jobs-Ends :
        (v : At)
        → v.begun ≡ p.begun
        → v.exited ≡ p.exited
        → Ends scheduler_uc migrator_uc p (start_jobs lib scheduler_uc migrator_uc v)
    unfolding start_jobs on_world
    start_jobs-Ends v begun goes_on =
        bind_either (Ends scheduler_uc migrator_uc p)
          (attempt (on_world (on_outside (init_tracer_provider otel collector))))
          (λ o. tracer_or_fatal lib o >>= begin_jobs lib scheduler_uc migrator_uc) v
          (λ o e. traced o _ begun goes_on) (λ r f. inr (f, inl begun))

-- The trace of the jobs stands under a key that TraceIDFromContext does not read.
traced_by-unread :
    {W S : Type 0} (lib : Libraries W S) (trace_id : Bytes)
    → trace_id_from_context (traced_by lib trace_id) ≡ ([], false)
unfolding trace_id_from_context
traced_by-unread lib trace_id = refl
