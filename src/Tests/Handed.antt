-- ===== src/Tests/Handed.antt =====
-- A trigger whose batches call the executor for the one task of its slice.
use codewave_timer.Base.{
  ◌≡◌, refl, sym, subst, arith, inl, inr, true, ◌&&◌, List, [], ◌∷◌, ◌++◌, Has, Bytes,
  if◌then◌else◌, pos, ok, ℤ, ◌≤ℤ◌, ◌<ℤ◌, leb_ℤ, ltb_ℤ,
}
use codewave_timer.GoLib.Clock.{Time, unix_milli}
use codewave_timer.Exec.{Exec, pure}
use codewave_timer.Config.{shipped}
use codewave_timer.Keys.{get_slice_msg_key}
use codewave_timer.Keys.SliceKey.{get_start_minute-get_slice_msg_key, get_bucket-get_slice_msg_key}
use codewave_timer.Model.{TaskTimer}
use codewave_timer.Biz.Ports.{TaskCache, TimerTaskRepo}
use codewave_timer.Biz.SafeChan.{new_safe_chan, put, poll, close}
use codewave_timer.Biz.Trigger.{get_tasks_by_time, from_database, submit_all, handle_batch}
use codewave_timer.Biz.Trigger.Batch.{key_of}
use codewave_timer.Biz.Trigger.Run.{run_events, begin, take_at, work}
use codewave_timer.Biz.Trigger.Run.Handed.{work_hands}
use codewave_timer.Tests.Biz.{shanghai, t0, task, ctx}
use codewave_timer.Tests.Slice.{t0-HasFourDigitYear, events}

-- The world is what the pool has taken.
abbrev job : TaskTimer
job = record task { run_timer = unix_milli t0 }

abbrev tasks : TimerTaskRepo (List Bytes)
tasks = record {
  batch_save = λ c ts. pure tt;
  update = λ c t. pure t;
  get_tasks_by_time_range = λ c a b st. pure (job ∷ []);
  get_tasks_by_timer_id_and_run_timer = λ c id unix. pure job;
}

abbrev within : ℤ → ℤ → List TaskTimer
within from to = if leb_ℤ from job.run_timer && ltb_ℤ job.run_timer to then job ∷ [] else []

abbrev cache : TaskCache (List Bytes)
cache = record {
  batch_create_tasks = λ c ts. pure tt;
  get_tasks_by_time = λ c k from to. pure (within from to);
}

abbrev submit : Bytes → Exec (List Bytes) (Unit {0})
submit key w = (ok tt, w ++ key ∷ [])

abbrev slice : Bytes
slice = get_slice_msg_key shanghai t0 (pos 2)

abbrev handed : List TaskTimer → List Bytes → List Bytes
handed [] w = w
handed (t ∷ ts) w = handed ts (w ++ key_of t ∷ [])

abbrev simple : Time → Time → Exec (List Bytes) (Unit {0})
simple from to w = (ok tt, handed (within (unix_milli from) (unix_milli to)) w)

submits :
    (ts : List TaskTimer) (w : List Bytes)
    → submit_all shipped tasks cache submit ts w ≡ (ok tt, handed ts w)
unfolding submit_all
submits [] w = refl
submits (t ∷ ts) w = submits ts (w ++ key_of t ∷ [])

batches :
    (from to : Time) (w : List Bytes)
    → handle_batch shipped tasks cache submit ctx slice from to w ≡ simple from to w
unfolding handle_batch get_tasks_by_time from_database
batches from to w =
    rw (get_bucket-get_slice_msg_key shanghai t0 (pos 2) (omega arith))
      (submits (within (unix_milli from) (unix_milli to)) w)

simple_works : (work shanghai 30 simple (pure tt) slice events []).0 ≡ ok tt
unfolding work run_events begin take_at new_safe_chan put poll close
simple_works = rw (get_start_minute-get_slice_msg_key shanghai t0 (pos 2) t0-HasFourDigitYear) refl

works :
    (work shanghai 30
      (handle_batch shipped tasks cache submit ctx slice)
      (pure tt)
      slice
      events
      []).0
    ≡ ok tt
works =
    subst
      (λ (h : Time → Time → Exec (List Bytes) (Unit {0})).
        (work shanghai 30 h (pure tt) slice events []).0 ≡ ok tt)
      (sym (λ i from to w. batches from to w i)) simple_works

job_found : (found : List TaskTimer) → ok (job ∷ []) ≡ ok found → Has job found
job_found found e = subst (Has job) {x = job ∷ []} {y = found} (ground arith) (inl refl)

finds :
    (bucket : ℤ) (from to : Time) (w : List Bytes) (found : List TaskTimer)
    → Unit {0}
    → unix_milli from ≤ℤ job.run_timer
    → job.run_timer <ℤ unix_milli to
    → (get_tasks_by_time shipped tasks cache submit ctx slice bucket from to w).0 ≡ ok found
    → Has job found
unfolding get_tasks_by_time from_database
finds bucket from to w found u low high e =
    let inside : (leb_ℤ (unix_milli from) job.run_timer && ltb_ℤ job.run_timer (unix_milli to))
        ≡ true =
      ground arith in
    job_found found (rw inside at e)

pub Has-more : (k key : Bytes) (w : List Bytes) → Has k w → Has k (w ++ key ∷ [])
Has-more k key [] h = elim h [ ]
Has-more k key (x ∷ w) (inl e) = inl e
Has-more k key (x ∷ w) (inr h) = inr (Has-more k key w h)

work_hands_example : Has (key_of job) (
    (work shanghai 30
      (handle_batch shipped tasks cache submit ctx slice)
      (pure tt)
      slice
      events
      []).1)
work_hands_example =
    work_hands shipped tasks cache submit (pure tt) (λ w. w) (λ key w h. refl) ctx slice job
      (record {
        reads = λ c k from to w h. h;
        queries = λ c from to status w h. h;
        submits = λ key w h. Has-more _ key w h;
        acks = λ w h. h;
      })
      (λ w. Unit)
      (record {
        reads = λ c k from to w h. h;
        queries = λ c from to status w h. h;
        submits = λ key w h. h;
        acks = λ w h. h;
      })
      finds shanghai 30 t0 t0 (pos 2) events [] refl t0-HasFourDigitYear (omega arith) (omega arith)
      refl (omega arith) refl tt works
