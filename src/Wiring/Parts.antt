-- ===== src/Wiring/Parts.antt =====
-- How the parts that NewServiceContext of internal/svc/servicecontext.go makes fit together.
use codewave_timer.Base.{pos, ◌≡◌, refl, sym, ap, ◌∙◌, Option, ok}
use codewave_timer.Exec.{>>=-eq-ok}
use codewave_timer.Pool.{new_go_worker_pool}
use codewave_timer.Data.TaskCache.Members.{ok-inj}
use codewave_timer.Settings.{GlobalConfig, config_of}
use codewave_timer.UseCases.{
  SchedulerUseCase, TriggerUseCase, ExecutorUseCase, new_migrator_use_case, new_cron_job_use_case,
  new_executor_use_case, new_trigger_use_case, new_scheduler_use_case, new_codewave_timer_service,
}
use codewave_timer.Wiring.{
  Libraries, ServiceContext, tasks, tasks_cached, the_executor, the_context, new_trigger,
  new_scheduler,
}

module _ {W S : Type 0} (lib : Libraries W S) where
  open lib use {sql, ants, otel, robfig}

  -- The parts of a service context are one another's, and work on one set of repositories.
  pub record Fits (sc : ServiceContext lib) : Type 0 where
    pub same_service : sc.service ≡ record {
      timer_uc = sc.cron_job_uc;
      scheduler_uc = sc.scheduler_uc;
      migrator_uc = sc.migrator_uc;
    }
    pub one_migrator : sc.cron_job_uc.muc ≡ sc.migrator_uc
    pub jobs :
        (sc.cron_job_uc.timer_repo ≡ sc.job_repo)
        × (sc.migrator_uc.timer_repo ≡ sc.job_repo)
        × (sc.scheduler_uc.trigger.executor.timer_repo ≡ sc.job_repo)
    pub tasks :
        (sc.migrator_uc.task_repo ≡ sc.task_repo)
        × (sc.scheduler_uc.trigger.task_repo ≡ sc.task_repo)
        × (sc.scheduler_uc.trigger.executor.task_repo ≡ sc.task_repo)
    pub caches :
        (sc.migrator_uc.task_cache ≡ sc.task_cache)
        × (sc.scheduler_uc.trigger.task_cache ≡ sc.task_cache)
    pub transactions : sc.cron_job_uc.tm ≡ sc.tx_manager

  module _ (c : GlobalConfig) where
    new_trigger-ok :
        (db : Option sql.Db) (cache : Option (Unit {0})) (w : W) (t : TriggerUseCase W ants.Pool)
        → (new_trigger lib c db cache w).0 ≡ ok t
        → (t.task_repo ≡ tasks lib c db cache)
          × (t.task_cache ≡ tasks_cached lib c db cache)
          × (t.executor ≡ the_executor lib c db cache)
    unfolding new_trigger new_trigger_use_case
    new_trigger-ok db cache w t h =
        let size = (config_of c.data_config).trigger in
        let (quick, e1, h1, s1) =
          >>=-eq-ok (new_go_worker_pool ants (pos size.workers_num)) _ w h in
        let (slow, e2, h2, s2) =
          >>=-eq-ok (new_go_worker_pool ants (pos size.slow_workers_num)) _ _ h1 in
        let same = ok-inj h2 in
        (
          ap (λ (u : TriggerUseCase W ants.Pool). u.task_repo) (sym same),
          ap (λ (u : TriggerUseCase W ants.Pool). u.task_cache) (sym same),
          ap (λ (u : TriggerUseCase W ants.Pool). u.executor) (sym same),
        )

    new_scheduler-ok :
        (db : Option sql.Db) (cache : Option (Unit {0})) (t : TriggerUseCase W ants.Pool) (w : W)
        (uc : SchedulerUseCase W ants.Pool)
        → (new_scheduler lib c db cache t w).0 ≡ ok uc
        → uc.trigger ≡ t
    unfolding new_scheduler new_scheduler_use_case
    new_scheduler-ok db cache t w uc h =
        let size = (config_of c.data_config).scheduler in
        let (pool, e1, h1, s1) = >>=-eq-ok (new_go_worker_pool ants (pos size.workers_num)) _ w h in
        ap (λ (u : SchedulerUseCase W ants.Pool). u.trigger) (sym (ok-inj h1))

    pub the_context-Fits :
        (db : Option sql.Db) (cache : Option (Unit {0})) (w w' : W) (t : TriggerUseCase W ants.Pool)
        (uc : SchedulerUseCase W ants.Pool)
        → (new_trigger lib c db cache w).0 ≡ ok t
        → (new_scheduler lib c db cache t w').0 ≡ ok uc
        → (b : otel.TracerProvider × robfig.Cron) → Fits (the_context lib c db cache uc b)
    unfolding the_context new_migrator_use_case new_cron_job_use_case new_executor_use_case
        new_codewave_timer_service
    the_context-Fits db cache w w' t uc ht hu b =
        let same = new_scheduler-ok db cache t w' uc hu in
        let (e1, e2, e3) = new_trigger-ok db cache w t ht in
        record {
          same_service = refl;
          one_migrator = refl;
          jobs = (
            refl,
            refl,
            ap (λ (u : TriggerUseCase W ants.Pool). u.executor.timer_repo) same
                ∙ ap (λ (x : ExecutorUseCase W). x.timer_repo) e3,
          );
          tasks = (
            refl,
            ap (λ (u : TriggerUseCase W ants.Pool). u.task_repo) same ∙ e1,
            ap (λ (u : TriggerUseCase W ants.Pool). u.executor.task_repo) same
                ∙ ap (λ (x : ExecutorUseCase W). x.task_repo) e3,
          );
          caches = (refl, ap (λ (u : TriggerUseCase W ants.Pool). u.task_cache) same ∙ e2);
          transactions = refl;
        }
