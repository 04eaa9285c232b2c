-- ===== src/Wiring/Started.antt =====
-- What has been started when NewServiceContext of internal/svc/servicecontext.go is over, and later.
use codewave_timer.Base.{
  ℕ, arith, ◌≡◌, refl, sym, subst, ap, ◌∙◌, ◌⊎◌, inl, inr, Option, List, [], ◌∷◌, ◌++◌,
  append_assoc, Bytes, Result, ok, err, panic, spin,
}
use codewave_timer.Exec.{◌>>=◌, IsFailed, bind_either}
use codewave_timer.Data.TaskCache.Members.{ok-inj}
use codewave_timer.Settings.{GlobalConfig}
use codewave_timer.Data.Start.{get_data_base, get_cache}
use codewave_timer.TimerTask.{goes, on_world}
use codewave_timer.TimerTask.Firings.{fires, fires-begun, repeated}
use codewave_timer.UseCases.{SchedulerUseCase, MigratorUseCase}
use codewave_timer.Wiring.{
  Job, schedules, migrates, Libraries, ServiceContext, the_migrator, the_context, new_trigger,
  new_scheduler, start_jobs, assemble, new_service_context, on_outside, on_db, on_cache,
}
use codewave_timer.Wiring.Jobs.{At, traced_by, BothJobs, Ends, start_jobs-Ends}
use codewave_timer.Wiring.Parts.{Fits, the_context-Fits}

module _ {W S : Type 0} (lib : Libraries W S) where
  open lib use {sql, ants, otel, robfig}

  -- How NewServiceContext ends.
  abbrev pub Wired : At lib → Result (ServiceContext lib) × At lib → Type 0
  Wired p q =
      ((sc : ServiceContext lib) × (q.0 ≡ ok sc)
        × Fits lib sc
        × BothJobs lib sc.scheduler_uc sc.migrator_uc p q.1)
      ⊎ (IsFailed q.0
          × ((q.1.begun ≡ p.begun)
              ⊎ ((scheduler_uc : SchedulerUseCase W ants.Pool) × (trace_id : Bytes) × (q.1.begun
                    ≡ p.begun ++ schedules scheduler_uc (traced_by lib trace_id) ∷ []))))

  module _ (scheduler_uc : SchedulerUseCase W ants.Pool) (migrator_uc : MigratorUseCase W)
      (p : At lib) where
    at_most_one :
        (v : At lib)
        → (v.begun ≡ p.begun)
          ⊎ ((trace_id : Bytes) × (v.begun
                ≡ p.begun ++ schedules scheduler_uc (traced_by lib trace_id) ∷ []))
        → (v.begun ≡ p.begun)
          ⊎ ((uc : SchedulerUseCase W ants.Pool) × (trace_id : Bytes) × (v.begun
                ≡ p.begun ++ schedules uc (traced_by lib trace_id) ∷ []))
    at_most_one v (inl quiet) = inl quiet
    at_most_one v (inr (trace_id, one)) = inr (scheduler_uc, trace_id, one)

    -- The last bind of NewServiceContext.
    closes :
        (sc : otel.TracerProvider × robfig.Cron → ServiceContext lib)
        → ((b : otel.TracerProvider × robfig.Cron) → Fits lib (sc b))
        → ((b : otel.TracerProvider × robfig.Cron) (v : At lib)
            → BothJobs lib scheduler_uc migrator_uc p v
            → BothJobs lib (sc b).scheduler_uc (sc b).migrator_uc p v)
        → (q : Result (otel.TracerProvider × robfig.Cron) × At lib)
        → Ends lib scheduler_uc migrator_uc p q
        → Wired p (((λ (v : At lib). q) >>= λ b. λ v. (ok (sc b), v)) p)
    closes sc fits both (ok b, v) (inl (x, h)) = inl (sc b, refl, fits b, both b v h)
    closes sc fits both (ok b, v) (inr (f, rest)) = elim f [ ]
    closes sc fits both (err e, v) (inl ((x, h), more)) = absurd (ground arith)
    closes sc fits both (err e, v) (inr (f, rest)) = inr (tt, at_most_one v rest)
    closes sc fits both (panic, v) (inl ((x, h), more)) = absurd (ground arith)
    closes sc fits both (panic, v) (inr (f, rest)) = inr (tt, at_most_one v rest)
    closes sc fits both (spin, v) (inl ((x, h), more)) = absurd (ground arith)
    closes sc fits both (spin, v) (inr (f, rest)) = inr (tt, at_most_one v rest)

  module _ (c : GlobalConfig) (p : At lib) where
    assemble-Wired :
        (db : Option sql.Db) (cache : Option (Unit {0})) (v : At lib)
        → v.begun ≡ p.begun
        → v.exited ≡ p.exited
        → Wired p (assemble lib c db cache v)
    unfolding assemble on_world on_outside the_context
    assemble-Wired db cache v begun goes_on =
        bind_either (Wired p) (on_world (on_outside (new_trigger lib c db cache))) _ v
          (λ trigger_uc e.
            bind_either (Wired p) (on_world (on_outside (new_scheduler lib c db cache trigger_uc)))
              _ _
              (λ scheduler_uc e'.
                closes scheduler_uc (the_migrator lib c db cache) p
                  (the_context lib c db cache scheduler_uc)
                  (the_context-Fits lib c db cache _ _ trigger_uc scheduler_uc e e') (λ b v h. h)
                  (start_jobs lib scheduler_uc (the_migrator lib c db cache) _)
                  (start_jobs-Ends lib scheduler_uc (the_migrator lib c db cache) p _ begun
                    goes_on))
              (λ r f. inr (f, inl begun)))
          (λ r f. inr (f, inl begun))

    -- NewServiceContext ends in one of two ways. It succeeds: then its parts are one another's and share
    -- one set of repositories, the scheduler has begun, the migrator has been handed to the cron
    -- library under "@every 30m", both under one trace, and nothing else has begun. Or it fails, and
    -- then nothing has begun but the scheduler at most.
    pub new_service_context-Wired : Wired p (new_service_context lib c p)
    unfolding new_service_context on_world
    new_service_context-Wired =
        bind_either (Wired p) (on_world (on_db (get_data_base sql c.data_config.database))) _ p
          (λ db e.
            bind_either (Wired p)
              (on_world (on_cache (get_cache lib.new_client lib.ping c.data_config.redis)))
              (assemble lib c db) _ (λ cache e'. assemble-Wired db cache _ refl refl)
              (λ r f. inr (f, inl refl)))
          (λ r f. inr (f, inl refl))

    -- The goroutines after `n` calls of the function that the cron library was given.
    abbrev pub RunsJobs : ServiceContext lib → ℕ → At lib → Type 0
    RunsJobs sc n v =
        (trace_id : Bytes) × ((fires n (goes (migrates sc.migrator_uc (traced_by lib trace_id)))
            v).begun
          ≡ p.begun
            ++ schedules sc.scheduler_uc (traced_by lib trace_id)
              ∷ repeated n (migrates sc.migrator_uc (traced_by lib trace_id)))

    BothJobs-RunsJobs :
        (sc : ServiceContext lib) (n : ℕ) (v : At lib)
        → BothJobs lib sc.scheduler_uc sc.migrator_uc p v
        → RunsJobs sc n v
    BothJobs-RunsJobs sc n v both =
        let later = repeated n (migrates sc.migrator_uc (traced_by lib both.trace_id)) in
        (
          both.trace_id,
          fires-begun n (migrates sc.migrator_uc (traced_by lib both.trace_id)) v
              ∙ ap (λ (l : List (Job W ants.Pool)). l ++ later) both.begun
              ∙ append_assoc p.begun (schedules sc.scheduler_uc (traced_by lib both.trace_id) ∷ [])
                  later,
        )

    -- What a success means.
    pub new_service_context-ok :
        (sc : ServiceContext lib)
        → (new_service_context lib c p).0 ≡ ok sc
        → Fits lib sc
          × BothJobs lib sc.scheduler_uc sc.migrator_uc p (new_service_context lib c p).1
    new_service_context-ok sc h = elim new_service_context-Wired [
      | inl (sc', e, fit, both) ↦
          subst
            (λ (x : ServiceContext lib).
              Fits lib x
              × BothJobs lib x.scheduler_uc x.migrator_uc p (new_service_context lib c p).1)
            (ok-inj (sym e ∙ h)) (fit, both)
      | inr (f, rest) ↦ absurd (subst IsFailed h f)
    ]

    -- After a success, each time that the cron library calls the function that it was given, a
    -- migration begins, and the scheduler has begun once.
    pub service_jobs :
        (sc : ServiceContext lib) (n : ℕ)
        → (new_service_context lib c p).0 ≡ ok sc
        → RunsJobs sc n (new_service_context lib c p).1
    service_jobs sc n h =
        BothJobs-RunsJobs sc n (new_service_context lib c p).1 (new_service_context-ok sc h).1
