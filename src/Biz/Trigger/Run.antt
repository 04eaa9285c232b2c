-- ===== src/Biz/Trigger/Run.antt =====
-- Work of internal/biz/trigger.go: a loop over the ticks of a minute, a goroutine for each, and the
-- wait for them. A run is a list of events in the order in which they happen; a goroutine's batch is
-- taken as one step, at the moment when it ends.
pub mod Invariant
pub mod Ends
pub mod Ack
pub mod Slice
pub mod Kept
pub mod Handed
use codewave_timer.Base.{
  ℕ, zero, suc, ◌+◌, ◌*◌, ◌/◌, ◌==◌, leb, Bool, List, [], ◌∷◌, Option, none, some, Bytes,
  if◌then◌else◌, Result, ok, err, panic, spin, Error,
}
use codewave_timer.GoLib.Clock.{Time, Location, Duration, second, minute}
use codewave_timer.Exec.{Exec}
use codewave_timer.Keys.{get_start_minute}
use codewave_timer.Biz.SafeChan.{SafeChan, new_safe_chan, put, poll, close}

pub data Event : Type 0 where
  tick : Event  -- of the ticker
  ends : ℕ → Event  -- the goroutine at this place of `running`
  waits : Event  -- wg.Wait returns, if no goroutine is left

pub data Phase : Type 0 where
  ticking waiting : Phase
  returned : Result (Unit {0}) → Phase

pub record Run (W : Type 0) : Type 0 where
  pub world : W
  pub start_time : Time
  pub running : List Time  -- the goroutines of wg, by the start of their batch
  pub notifier : SafeChan Error
  pub phase : Phase
  pub succeeded : List Time  -- the batches that have ended so far
  pub failed : List Time

-- The element at a place, and the others.
unfoldable pub take_at : ℕ → List Time → Option (Time × List Time)
take_at i [] = none
take_at zero (s ∷ ss) = some (s, ss)
take_at (suc i) (s ∷ ss) = elim (take_at i ss) [ none ↦ none | some (t, ts) ↦ some (t, s ∷ ts) ]

-- `gap` is the ticker's period, `handle start` is handleBatch from `start` to `start + gap`.
module _ {W : Type 0} (gap : Duration) (end_time : Time) (handle : Time → Exec W (Unit {0}))
    (ack : Exec W (Unit {0})) where
  pub spawn : Run W → Run W
  spawn run = record run {
    running = run.start_time ∷ run.running;
    start_time = run.start_time + gap;
    phase = if leb end_time (run.start_time + gap) then waiting else ticking;
  }

  -- The deferred notifier.Close() runs when Work returns.
  pub fail : SafeChan Error → Error → Run W → Run W
  fail n e run = record run { notifier = close n; phase = returned (err e) }

  pub tick_polled : Option Error × SafeChan Error → Run W → Run W
  tick_polled (some e, n) run = fail n e run
  tick_polled (none, n) run = spawn run

  -- What a batch's result does. A panic in a goroutine ends the program.
  pub settle : Time → List Time → Result (Unit {0}) × W → Run W → Run W
  settle s rest (ok u, w) run = record run {
    world = w;
    running = rest;
    succeeded = s ∷ run.succeeded;
  }
  settle s rest (err e, w) run = record run {
    world = w;
    running = rest;
    notifier = put e run.notifier;
    failed = s ∷ run.failed;
  }
  settle s rest (panic, w) run = record run { world = w; phase = returned panic }
  settle s rest (spin, w) run = run

  pub ended : Option (Time × List Time) → Run W → Run W
  ended none run = run
  ended (some (s, rest)) run = settle s rest (handle s run.world) run

  pub acked : Result (Unit {0}) × W → Run W → Run W
  acked (r, w) run = record run { world = w; notifier = close run.notifier; phase = returned r }

  pub wait_polled : Option Error × SafeChan Error → Run W → Run W
  wait_polled (some e, n) run = fail n e run
  wait_polled (none, n) run = acked (ack run.world) run

  pub when_ticking : Phase → Run W → Run W
  when_ticking ticking run = tick_polled (poll run.notifier) run
  when_ticking waiting run = run
  when_ticking (returned r) run = run

  pub when_waiting : Phase → List Time → Run W → Run W
  when_waiting waiting [] run = wait_polled (poll run.notifier) run
  when_waiting waiting (s ∷ ss) run = run
  when_waiting ticking ss run = run
  when_waiting (returned r) ss run = run

  unfoldable pub step : Event → Run W → Run W
  unfolding spawn fail tick_polled settle ended acked wait_polled when_ticking when_waiting take_at
  step tick run = when_ticking run.phase run
  step (ends i) run = ended (take_at i run.running) run
  step waits run = when_waiting run.phase run.running run

  unfoldable pub run_events : List Event → Run W → Run W
  unfolding step
  run_events [] run = run
  run_events (e ∷ es) run = run_events es (step e run)

-- The period is a time.Duration, an int64 of nanoseconds: up to 9223372036 seconds it does not wrap.
unfoldable pub begin : {W : Type 0} → ℕ → Time → W → Run W
begin gap_seconds start_time w = record {
  world = w;
  start_time = start_time;
  running = [];
  notifier = new_safe_chan (minute / (gap_seconds * second));
  phase = ticking;
  succeeded = [];
  failed = [];
}

-- The result of a run; one whose events have not led to an end is cut off.
pub result : {W : Type 0} → Phase → W → Result (Unit {0}) × W
result ticking w = (spin, w)
result waiting w = (spin, w)
result (returned r) w = (r, w)

-- `handle start end` is handleBatch for the key. NewTicker panics for a period of 0.
module _ {W : Type 0} (loc : Location) (gap_seconds : ℕ) (handle : Time → Time → Exec W (Unit {0}))
    (ack : Exec W (Unit {0})) where
  pub final : List Event → Time → W → Run W
  final events start_time w =
      run_events (gap_seconds * second) (start_time + minute)
        (λ s. handle s (s + gap_seconds * second)) ack events (begin gap_seconds start_time w)

  pub work_from : List Event → Result Time → Exec W (Unit {0})
  work_from events (ok start_time) w =
      if gap_seconds == 0
      then (panic, w)
      else result (final events start_time w).phase (final events start_time w).world
  work_from events (err e) w = (err e, w)
  work_from events panic w = (panic, w)
  work_from events spin w = (spin, w)

  unfoldable pub work : Bytes → List Event → Exec W (Unit {0})
  unfolding run_events begin result work_from final
  work minute_bucket_key events = work_from events (get_start_minute loc minute_bucket_key)
