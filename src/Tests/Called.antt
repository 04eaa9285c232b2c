-- ===== src/Tests/Called.antt =====
-- A timer of the tests is migrated, and a trigger works on the slice of its next minute.
use codewave_timer.Base.{
  ◌∙◌, ◌≡◌, ◌≢◌, refl, sym, subst, arith, false, Has, Bytes, bytes_eq, ◌-ℤ◌, pos, ok, err, ℤ, Error,
  rem_ℤ,
}
use codewave_timer.GoLib.Calendar.{to_date, year_split, month_split, month_lengths, year_length}
use codewave_timer.GoLib.Clock.{
  Time, unix_milli, format_minute, format_wall, pad4, wall, unix_nano_negative,
}
use codewave_timer.Exec.{Exec, pure}
use codewave_timer.Cron.{nexts_before, nexts_between}
use codewave_timer.Redis.{pipeline, client_zrange_by_score}
use codewave_timer.Keys.{get_slice_msg_key, get_table_name, table_bucket}
use codewave_timer.Keys.SliceKey.{
  HasFourDigitYear, get_start_minute-get_slice_msg_key, get_bucket-get_slice_msg_key,
}
use codewave_timer.Biz.Migrator.{migrate_enabled, migrator_timer, batch_tasks_from_timer}
use codewave_timer.Biz.SafeChan.{new_safe_chan, put, poll, close}
use codewave_timer.Biz.Trigger
use codewave_timer.Biz.Trigger.{submit_all, handle_batch, from_database}
use codewave_timer.Biz.Trigger.Run.{run_events, begin, take_at, work}
use codewave_timer.Data.TaskCache.{
  batch_create_tasks, queue_tasks, get_tasks_by_time, tasks_of_members, redis_cache,
}
use codewave_timer.Data.Migration.{Stands}
use codewave_timer.Data.Migration.Left.{IsLeft}
use codewave_timer.Data.Migration.Called.{call, cache, slice, triggered, migrated_task_called}
use codewave_timer.Tests.Server.{
  World, empty, server, server-IsRedis, server-HasSortedSets, score_apart,
}
use codewave_timer.Tests.Biz.{shanghai, t0, host, ctx, jobs}
use codewave_timer.Tests.Rounds.{minutely, on, short, tasks}
use codewave_timer.Tests.Slice.{events}
use codewave_timer.Tests.Handed.{Has-more}
use codewave_timer.Tests.Migration.{
  minutely-IsCron, minutely-dated, soon, migrated, pool, log, submit, all_taken,
}

soon-HasFourDigitYear : HasFourDigitYear shanghai soon
unfolding wall to_date year_split month_split month_lengths year_length
soon-HasFourDigitYear = record { after_zero = omega arith; before_10000 = omega arith }

abbrev key : Bytes
key = slice short server host shanghai on soon

abbrev batch : Time → Time → Exec World (Unit {0})
batch = handle_batch short tasks (cache short server host shanghai) submit ctx key

batch_ok : (from to : Time) (w : World) → (batch from to w).0 ≡ ok tt
unfolding handle_batch Trigger.get_tasks_by_time redis_cache get_tasks_by_time
    client_zrange_by_score from_database
batch_ok from to w =
    rw
      (get_bucket-get_slice_msg_key shanghai soon (rem_ℤ on.timer_id 5)
        (unfold rem_ℤ in omega arith))
      (all_taken
        (tasks_of_members (server.zrange_by_score key (unix_milli from) (unix_milli to -ℤ pos 1) w))
        w)

abbrev simple : Time → Time → Exec World (Unit {0})
simple from to w = (ok tt, (batch from to w).1)

simple_works : (work shanghai 30 simple (pure tt) key events migrated).0 ≡ ok tt
unfolding work run_events begin take_at new_safe_chan put poll close
simple_works =
    rw
      (get_start_minute-get_slice_msg_key shanghai soon (rem_ℤ on.timer_id 5) soon-HasFourDigitYear)
      refl

works :
    (triggered short server host shanghai tasks submit (pure tt) 30 ctx on soon events migrated).0
    ≡ ok tt
works =
    subst
      (λ (h : Time → Time → Exec World (Unit {0})).
        (work shanghai 30 h (pure tt) key events migrated).0 ≡ ok tt)
      (λ i from to w. (sym (batch_ok from to w) i, (batch from to w).1)) simple_works

no_error :
    (from to : ℤ) (w : World) (e : Error)
    → ((cache short server host shanghai).get_tasks_by_time ctx key from to w).0 ≢ err e
unfolding redis_cache get_tasks_by_time client_zrange_by_score
no_error from to w e h = absurd (ground arith)

pool_apart : bytes_eq pool key ≡ false
unfolding get_slice_msg_key format_minute format_wall pad4 to_date year_split wall year_length
pool_apart = refl

left : IsLeft tasks submit (pure tt) (Stands server server-HasSortedSets shanghai 5 on soon)
left = record {
  queries = λ c from to status w h. h;
  submits = λ k w h.
      score_apart record { key = pool; member = k; score = pos 0 } key (call on soon) w pool_apart
      ∙ h;
  acks = λ w h. h;
}

kept : IsLeft tasks submit (pure tt) (λ w. Has (call on soon) (log w))
kept = record {
  queries = λ c from to status w h. h;
  submits = λ k w h. Has-more (call on soon) k (log w) h;
  acks = λ w h. h;
}

migrated_task_called_example : Has (call on soon) (
    log
      (triggered short server host shanghai tasks submit
        (pure tt)
        30
        ctx
        on
        soon
        events
        migrated).1)
unfolding migrator_timer migrate_enabled nexts_before nexts_between unix_nano_negative
    batch_create_tasks queue_tasks get_table_name table_bucket pipeline redis_cache
    batch_tasks_from_timer minutely-IsCron
migrated_task_called_example =
    migrated_task_called minutely minutely-IsCron minutely-dated short host jobs tasks server
      server-IsRedis server-HasSortedSets shanghai t0 (λ w t e. ground arith) submit (pure tt) log
      (λ key w h. refl) on tt t0 t0 refl (omega arith) refl (omega arith) (omega arith)
      (omega arith) ctx ctx empty migrated soon 30 events refl refl refl (omega arith) (omega arith)
      (omega arith) (omega arith) (λ h. h) left kept no_error soon-HasFourDigitYear (omega arith)
      (omega arith) works
