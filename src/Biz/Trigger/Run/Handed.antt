-- ===== src/Biz/Trigger/Run/Handed.antt =====
-- What a trigger that ends without an error has handed to the executor.
use codewave_timer.Base.{
  ℕ, ◌+◌, ◌-◌, ◌*◌, ◌/◌, ◌%◌, ◌<◌, ◌≤◌, ◌≡◌, ◌==◌, false, refl, sym, subst, ap, ◌∙◌, arith, inl,
  inr, List, [], ◌∷◌, ◌++◌, map, All, Has, Bytes, leb, ltb, ◌&&◌, Bool-cases, ℤ, ◌≤ℤ◌, ◌<ℤ◌, ok,
  sub_ℕ, Has-append_right, Has-map,
}
use codewave_timer.GoLib.Clock.{
  Time, Location, Duration, second, minute, millisecond, unix_milli, epoch,
}
use codewave_timer.Exec.{Exec, lift, >>=-eq-ok}
use codewave_timer.Config.{Config}
use codewave_timer.Keys.{get_bucket, get_slice_msg_key}
use codewave_timer.Keys.SliceKey.{HasFourDigitYear, get_start_minute-get_slice_msg_key}
use codewave_timer.Model.{TaskTimer}
use codewave_timer.Biz.Ports.{Context, TaskCache, TimerTaskRepo}
use codewave_timer.Biz.Trigger.{get_tasks_by_time, handle_batch}
use codewave_timer.Biz.Trigger.Batch.{key_of, submit_all-takes}
use codewave_timer.Biz.Trigger.Run.{
  Event, Phase, ticking, waiting, returned, work, work_from, final, result, begin,
}
use codewave_timer.Biz.Trigger.Run.Invariant.{covered}
use codewave_timer.Biz.Trigger.Run.Kept.{run_events-Keeps}
use codewave_timer.Biz.Trigger.Run.Slice.{work_complete}
use codewave_timer.Biz.Trigger.Undisturbed.{Undisturbed, handle_batch-Stays}

covered-Kept :
    (gap : Duration) (v : Time) (Q : Type 0) (ss : List Time)
    → 0 < covered gap ss v
    → All (λ s. s ≤ v → v < s + gap → Q) ss
    → Q
covered-Kept gap v Q [] some h = absurd (omega arith)
covered-Kept gap v Q (s ∷ ss) some (now, h) = elim (Bool-cases (leb s v && ltb v (s + gap))) [
  | inl here ↦ now (ground arith) (ground arith)
  | inr other ↦ covered-Kept gap v Q ss (ground (arith, rw other at some)) h
]

sub_ℕ-mono : (a b e : ℕ) → a ≤ b → sub_ℕ a e ≤ℤ sub_ℕ b e
sub_ℕ-mono a b e le = ground arith

sub_ℕ-mono_lt : (a b e : ℕ) → a < b → sub_ℕ a e <ℤ sub_ℕ b e
sub_ℕ-mono_lt a b e lt = ground arith

unix_milli-mono : (s v : Time) → s ≤ v → unix_milli s ≤ℤ unix_milli v
unfolding unix_milli
unix_milli-mono s v le = sub_ℕ-mono (s / millisecond) (v / millisecond) _ (omega arith)

unix_milli-later : (u e : Time) → u + (millisecond - 1) < e → unix_milli u <ℤ unix_milli e
unfolding unix_milli
unix_milli-later u e lt = sub_ℕ-mono_lt (u / millisecond) (e / millisecond) _ (omega arith)

same_quotient :
    (u : Time) → u % millisecond ≡ 0 → (u + (millisecond - 1)) / millisecond ≡ u / millisecond
same_quotient u whole = omega arith

-- The last nanosecond of a whole millisecond.
whole_milli : (u : Time) → u % millisecond ≡ 0 → unix_milli (u + (millisecond - 1)) ≡ unix_milli u
unfolding unix_milli
whole_milli u whole = ap (λ q. sub_ℕ q (epoch / millisecond)) (same_quotient u whole)

result-world : {W : Type 0} (p : Phase) (w : W) → (result p w).1 ≡ w
unfolding result
result-world ticking w = refl
result-world waiting w = refl
result-world (returned r) w = refl

module _ {W : Type 0} (loc : Location) (gap_seconds : ℕ) (handle : Time → Time → Exec W (Unit {0}))
    (ack : Exec W (Unit {0})) where
  work_from-world :
      (events : List Event) (start_time : Time) (w : W)
      → 0 < gap_seconds
      → (work_from loc gap_seconds handle ack events (ok start_time) w).1
        ≡ (final loc gap_seconds handle ack events start_time w).world
  unfolding work_from final
  work_from-world events start_time w pos_gap =
      let some_gap : (gap_seconds == 0) ≡ false = ground arith in
      rw some_gap (
        result-world (final loc gap_seconds handle ack events start_time w).phase
          (final loc gap_seconds handle ack events start_time w).world)

  work-world :
      (t : Time) (b : ℤ) (events : List Event) (w : W)
      → HasFourDigitYear loc t
      → 0 < gap_seconds
      → (work loc gap_seconds handle ack (get_slice_msg_key loc t b) events w).1
        ≡ (final loc gap_seconds handle ack events (t / minute * minute) w).world
  unfolding work
  work-world t b events w year pos_gap =
      ap (λ r. (work_from loc gap_seconds handle ack events r w).1)
        (get_start_minute-get_slice_msg_key loc t b year)
      ∙ work_from-world events (t / minute * minute) w pos_gap

module _ {W : Type 0} (conf : Config) (tasks : TimerTaskRepo W) (cache : TaskCache W)
    (submit : Bytes → Exec W (Unit {0})) (ack : Exec W (Unit {0})) (log : W → List Bytes)
    (takes : (key : Bytes) (w : W)
      → (submit key w).0 ≡ ok tt
      → log (submit key w).1 ≡ log w ++ key ∷ [])
    (ctx : Context) (slice : Bytes) (task : TaskTimer)
    (forgets_none : Undisturbed tasks cache submit ack (λ w. Has (key_of task) (log w)))
    (Ready : W → Type 0) (ready : Undisturbed tasks cache submit ack Ready)
    (finds : (bucket : ℤ) (from to : Time) (w : W) (found : List TaskTimer)
      → Ready w
      → unix_milli from ≤ℤ task.run_timer
      → task.run_timer <ℤ unix_milli to
      → (get_tasks_by_time conf tasks cache submit ctx slice bucket from to w).0 ≡ ok found
      → Has task found) where
  handle_batch-hands :
      (from to : Time) (w : W)
      → Ready w
      → unix_milli from ≤ℤ task.run_timer
      → task.run_timer <ℤ unix_milli to
      → (handle_batch conf tasks cache submit ctx slice from to w).0 ≡ ok tt
      → Has (key_of task) (log (handle_batch conf tasks cache submit ctx slice from to w).1)
  unfolding handle_batch
  handle_batch-hands from to w r low high h =
      let (bucket, e1, h1, s1) = >>=-eq-ok (lift (get_bucket slice)) _ w h in
      let (found, e2, h2, s2) =
        >>=-eq-ok (get_tasks_by_time conf tasks cache submit ctx slice bucket from to) _ w h1 in
      let w' = (get_tasks_by_time conf tasks cache submit ctx slice bucket from to w).1 in
      let taken = submit_all-takes conf tasks cache submit log takes found w' h2 in
      subst (Has (key_of task)) (sym taken ∙ sym (ap (λ p. log p.1) (s1 ∙ s2))) (
        Has-append_right (key_of task) (log w') (map key_of found)
          (Has-map key_of task found (finds bucket from to w found r low high e2)))

  module _ (loc : Location) (gap_seconds : ℕ) where
    -- With a period from 1 to 60 seconds and in a year from 0 to 9999, a Work without an error on the
    -- key that the scheduler made for the time `t` and a bucket has handed the executor the key of
    -- `task`, whatever the order in which ticks come and batches end, if the task is due in a whole
    -- millisecond `u` of the minute of `t`, if, from the start on, every read of the slice's tasks
    -- over an interval that holds `u` that has no error, from the cache or from the database, gives
    -- the task, and if nothing that a batch or the acknowledgement does takes back what the pool has
    -- taken.
    pub work_hands :
        (t u : Time) (b : ℤ) (events : List Event) (w : W)
        → slice ≡ get_slice_msg_key loc t b
        → HasFourDigitYear loc t
        → 0 < gap_seconds
        → gap_seconds ≤ 60
        → u / minute ≡ t / minute
        → u % millisecond ≡ 0
        → task.run_timer ≡ unix_milli u
        → Ready w
        → (work loc gap_seconds
            (handle_batch conf tasks cache submit ctx slice)
            ack
            slice
            events
            w).0
          ≡ ok tt
        → Has (key_of task) (
            log
              (work loc gap_seconds
                (handle_batch conf tasks cache submit ctx slice)
                ack
                slice
                events
                w).1)
    unfolding final begin
    work_hands t u b events w named year pos_gap small same whole due r h =
        let handle = handle_batch conf tasks cache submit ctx slice in
        let gap : Duration = gap_seconds * second in
        let start : Time = t / minute * minute in
        let v : Time = u + (millisecond - 1) in
        let Kept : Time → W → Type 0 = λ s w. s ≤ v → v < s + gap → Has (key_of task) (log w) in
        let (fine, once) =
          work_complete loc gap_seconds handle ack t b events w year pos_gap small
            (ap (λ k. (work loc gap_seconds handle ack k events w).0) (sym named) ∙ h) in
        let kept =
          run_events-Keeps gap (start + minute) (λ s. handle s (s + gap)) ack Ready Kept
            (λ s w r done low high.
              handle_batch-hands s (s + gap) w r
                (subst (λ x. unix_milli s ≤ℤ x) (whole_milli u whole ∙ sym due)
                  (unix_milli-mono s v low))
                (subst (λ x. x <ℤ unix_milli (s + gap)) (sym due)
                  (unix_milli-later u (s + gap) high))
                done)
            (λ s s' w k low high.
              handle_batch-Stays conf tasks cache submit ack _ forgets_none ctx slice s' (s' + gap)
                w (k low high))
            (λ s w r.
              handle_batch-Stays conf tasks cache submit ack Ready ready ctx slice s (s + gap) w r)
            (λ s w k low high. forgets_none.acks w (k low high)) ready.acks events
            (begin gap_seconds start w) (r, tt) in
        subst (Has (key_of task))
          (ap log (sym (work-world loc gap_seconds handle ack t b events w year pos_gap))
            ∙ ap (λ k. log (work loc gap_seconds handle ack k events w).1) (sym named))
          (covered-Kept gap v _ (final loc gap_seconds handle ack events start w).succeeded
            (ground (arith, once v (omega arith))) kept.1)
