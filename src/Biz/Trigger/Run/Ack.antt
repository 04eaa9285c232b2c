-- ===== src/Biz/Trigger/Run/Ack.antt =====
-- When a trigger acknowledges its slice.
use codewave_timer.Base.{
  ℕ, ◌+◌, ◌*◌, ◌/◌, ◌<◌, ◌≤◌, ◌≡◌, refl, ap, arith, true, ◌&&◌, List, [], ◌∷◌, if◌then◌else◌, leb,
  ltb, ok, err, Error,
}
use native.Mathlib.Nat.{div-eq_of_lt}
use codewave_timer.GoLib.Clock.{Time, second, minute}
use codewave_timer.Exec.{Exec}
use codewave_timer.Biz.SafeChan.{new_safe_chan, put, poll, close}
use codewave_timer.Biz.Trigger.Run.{
  Event, tick, ends, waits, returned, Run, take_at, run_events, begin, spawn, tick_polled, settle,
  ended, acked, wait_polled, when_ticking, when_waiting,
}
use codewave_timer.Biz.Trigger.Run.Invariant.{covered, Inv, run_events-Inv}

module _ {W : Type 0} (gap_seconds : ℕ) (start_time : Time) (handle : Time → Exec W (Unit {0}))
    (ack : Exec W (Unit {0})) where
  begin-Inv :
      (w : W)
      → 0 < gap_seconds
      → gap_seconds ≤ 60
      → Inv (gap_seconds * second) start_time (start_time + minute) (begin gap_seconds start_time w)
  unfolding begin new_safe_chan
  begin-Inv w pos_gap small = record {
    counts = λ t. ground arith;
    low = omega arith;
    size = ground arith;
    open_ = λ h. refl;
    told = λ h e. refl;
    over = λ h. ground arith;
    done = λ h. ground arith;
  }

  -- With a period from 1 to 60 seconds, whatever the order in which ticks come and batches end, a
  -- trigger that has acknowledged its slice and returned without an error has seen no batch fail, and
  -- each instant of its minute belongs to exactly one of the batches that have succeeded.
  pub acknowledged_complete :
      (events : List Event) (w : W)
      → 0 < gap_seconds
      → gap_seconds ≤ 60
      → (run_events
          (gap_seconds * second)
          (start_time + minute)
          handle
          ack
          events
          (begin gap_seconds start_time w)).phase
        ≡ returned (ok tt)
      → ((run_events
            (gap_seconds * second)
            (start_time + minute)
            handle
            ack
            events
            (begin gap_seconds start_time w)).failed
          ≡ [])
        × ((t : Time)
            → start_time ≤ t
            → t < start_time + minute
            → covered
                (gap_seconds * second)
                (run_events
                  (gap_seconds * second)
                  (start_time + minute)
                  handle
                  ack
                  events
                  (begin gap_seconds start_time w)).succeeded
                t
              ≡ 1)
  acknowledged_complete events w pos_gap small h =
      let inv =
        run_events-Inv (gap_seconds * second) start_time (start_time + minute) handle ack events
          (begin gap_seconds start_time w) (begin-Inv w pos_gap small) in
      ((inv.done h).1, λ t low high. once t low high (inv.counts t) (inv.done h))
    where
      run : Run W
      run =
          run_events (gap_seconds * second) (start_time + minute) handle ack events
            (begin gap_seconds start_time w)

      once :
          (t : Time)
          → start_time ≤ t
          → t < start_time + minute
          → covered (gap_seconds * second) run.running t
              + covered (gap_seconds * second) run.succeeded t
              + covered (gap_seconds * second) run.failed t
            ≡ (if leb start_time t && ltb t run.start_time then 1 else 0)
          → (run.running ≡ []) × (run.failed ≡ []) × (start_time + minute ≤ run.start_time)
          → covered (gap_seconds * second) run.succeeded t ≡ 1
      once t low high c (alone, fine, over) = ground (
        arith,
        ap (λ ss. covered (gap_seconds * second) ss t) alone,
        ap (λ ss. covered (gap_seconds * second) ss t) fine,
      )

  -- With a period above 60 seconds the channel has no room: a trigger whose only batch has failed
  -- acknowledges its slice all the same, and reports what `ack` returns.
  pub acknowledged_unsound :
      (w w' : W) (e : Error)
      → 60 < gap_seconds
      → handle start_time w ≡ (err e, w')
      → let run =
          run_events
            (gap_seconds * second)
            (start_time + minute)
            handle
            ack
            (tick ∷ ends 0 ∷ waits ∷ [])
            (begin gap_seconds start_time w) in
        (run.failed ≡ start_time ∷ [])
        × (run.succeeded ≡ [])
        × (run.phase ≡ returned (ack w').0)
        × (run.world ≡ (ack w').1)
  unfolding run_events begin when_ticking tick_polled spawn take_at ended settle when_waiting
      wait_polled acked new_safe_chan put poll close
  acknowledged_unsound w w' e large fails =
      let no_room : minute / (gap_seconds * second) ≡ 0 = div-eq_of_lt (omega arith) in
      let last : leb (start_time + minute) (start_time + gap_seconds * second) ≡ true =
        ground arith in
      rw (last, fails, no_room) (refl, refl, refl, refl)
