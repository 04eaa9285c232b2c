-- ===== src/Biz/Trigger/Run/Ends.antt =====
-- That a trigger ends.
use codewave_timer.Base.{
  ℕ, zero, suc, ◌+◌, ◌*◌, ◌<◌, ◌≤◌, ◌≡◌, refl, sym, subst, ap, arith, ◌⊎◌, inl, inr, List, [], ◌∷◌,
  Option, none, some, if◌then◌else◌, leb, Bool-cases, Result, ok, err, panic, spin, Error,
}
use codewave_timer.GoLib.Clock.{Time, Duration, second, minute}
use codewave_timer.Exec.{Exec}
use codewave_timer.Biz.SafeChan.{poll, close}
use codewave_timer.Biz.Trigger.Run.{
  Event, tick, ends, waits, Phase, ticking, waiting, returned, Run, take_at, step, run_events,
  begin, spawn, fail, tick_polled, settle, ended, acked, wait_polled, when_ticking, when_waiting,
}

-- `n` rounds of a tick and the end of its batch, and then the wait.
abbrev pub schedule : ℕ → List Event
schedule zero = waits ∷ []
schedule (suc n) = tick ∷ ends 0 ∷ schedule n

abbrev pub IsReturned : Phase → Type 0
IsReturned p = (r : Result (Unit {0})) × (p ≡ returned r)

module _ {W : Type 0} (gap : Duration) (end_time : Time) (handle : Time → Exec W (Unit {0}))
    (ack : Exec W (Unit {0})) where
  settle-IsReturned :
      (s : Time) (rest : List Time) (p : Result (Unit {0}) × W) (run : Run W)
      → IsReturned run.phase
      → IsReturned (settle gap end_time handle ack s rest p run).phase
  unfolding settle
  settle-IsReturned s rest (ok u, w) run h = h
  settle-IsReturned s rest (err e, w) run h = h
  settle-IsReturned s rest (panic, w) run h = (panic, refl)
  settle-IsReturned s rest (spin, w) run h = h

  ended-IsReturned :
      (o : Option (Time × List Time)) (run : Run W)
      → IsReturned run.phase
      → IsReturned (ended gap end_time handle ack o run).phase
  unfolding ended
  ended-IsReturned none run h = h
  ended-IsReturned (some (s, rest)) run h = settle-IsReturned s rest (handle s run.world) run h

  when_ticking-IsReturned :
      (p : Phase) (run : Run W)
      → run.phase ≡ p
      → IsReturned run.phase
      → IsReturned (when_ticking gap end_time handle ack p run).phase
  unfolding when_ticking
  when_ticking-IsReturned ticking run e (r, h) = absurd (ground arith)
  when_ticking-IsReturned waiting run e h = h
  when_ticking-IsReturned (returned q) run e h = h

  when_waiting-IsReturned :
      (p : Phase) (ss : List Time) (run : Run W)
      → run.phase ≡ p
      → IsReturned run.phase
      → IsReturned (when_waiting gap end_time handle ack p ss run).phase
  unfolding when_waiting
  when_waiting-IsReturned ticking ss run e h = h
  when_waiting-IsReturned waiting ss run e (r, h) = absurd (ground arith)
  when_waiting-IsReturned (returned q) ss run e h = h

  -- A run that has returned stays so.
  step-IsReturned :
      (e : Event) (run : Run W)
      → IsReturned run.phase
      → IsReturned (step gap end_time handle ack e run).phase
  unfolding step
  step-IsReturned tick run h = when_ticking-IsReturned run.phase run refl h
  step-IsReturned (ends i) run h = ended-IsReturned (take_at i run.running) run h
  step-IsReturned waits run h = when_waiting-IsReturned run.phase run.running run refl h

  run_events-IsReturned :
      (es : List Event) (run : Run W)
      → IsReturned run.phase
      → IsReturned (run_events gap end_time handle ack es run).phase
  unfolding run_events
  run_events-IsReturned [] run h = h
  run_events-IsReturned (e ∷ es) run h = run_events-IsReturned es _ (step-IsReturned e run h)

  -- No batch is left and at most `n` are to come.
  data Ready (n : ℕ) (run : Run W) : Type 0 where
    goes_on :
        run.running ≡ []
        → run.phase ≡ ticking
        → run.start_time < end_time
        → end_time ≤ run.start_time + n * gap
        → Ready n run
    is_over : run.running ≡ [] → run.phase ≡ waiting → Ready n run
    has_returned : IsReturned run.phase → Ready n run

  module _
      (returns : (s : Time) (w : W)
        → ((handle s w).0 ≡ ok tt) ⊎ ((e : Error) × ((handle s w).0 ≡ err e))) where
    settle-Ready :
        (n : ℕ) (s : Time) (rest : List Time) (p : Result (Unit {0}) × W) (run : Run W)
        → rest ≡ []
        → (p.0 ≡ ok tt) ⊎ ((e : Error) × (p.0 ≡ err e))
        → run.phase ≡ (if leb end_time run.start_time then waiting else ticking)
        → end_time ≤ run.start_time + n * gap
        → Ready n (settle gap end_time handle ack s rest p run)
    unfolding settle
    settle-Ready n s rest (ok u, w) run alone o h le =
        elim (Bool-cases (leb end_time run.start_time)) [
          | inl over ↦ is_over alone (ground arith)
          | inr not_yet ↦ goes_on alone (ground arith) (ground arith) le
        ]
    settle-Ready n s rest (err e, w) run alone o h le =
        elim (Bool-cases (leb end_time run.start_time)) [
          | inl over ↦ is_over alone (ground arith)
          | inr not_yet ↦ goes_on alone (ground arith) (ground arith) le
        ]
    settle-Ready n s rest (panic, w) run alone o h le = absurd (ground arith)
    settle-Ready n s rest (spin, w) run alone o h le = absurd (ground arith)

    tick_polled-Ready :
        (n : ℕ) (items : List Error) (run : Run W)
        → run.running ≡ []
        → end_time ≤ run.start_time + suc n * gap
        → Ready n (
            step gap end_time handle ack (ends 0) (
              tick_polled gap end_time handle ack
                (poll (record run.notifier { items = items }))
                run))
    unfolding tick_polled poll spawn fail step ended take_at close
    tick_polled-Ready n (e ∷ items) run alone le = has_returned (
        ended-IsReturned (take_at 0 run.running)
          (fail gap end_time handle ack (record run.notifier { items = items }) e run)
          (err e, refl))
    tick_polled-Ready n [] run alone le =
        settle-Ready n run.start_time run.running (handle run.start_time run.world)
          (spawn gap end_time handle ack run) alone (returns run.start_time run.world) refl
          (ground arith)

    round-Ready :
        (n : ℕ) (run : Run W)
        → Ready (suc n) run
        → Ready n (step gap end_time handle ack (ends 0) (step gap end_time handle ack tick run))
    unfolding step when_ticking ended take_at
    round-Ready n run (goes_on alone live early le) =
        subst (λ (x : Run W). Ready n (step gap end_time handle ack (ends 0) x))
          (ap (λ p. when_ticking gap end_time handle ack p run) (sym live))
          (tick_polled-Ready n run.notifier.items run alone le)
    round-Ready n run (is_over alone live) =
        subst (λ (x : Run W). Ready n (step gap end_time handle ack (ends 0) x))
          (ap (λ p. when_ticking gap end_time handle ack p run) (sym live))
          (subst (λ (ss : List Time). Ready n (ended gap end_time handle ack (take_at 0 ss) run))
            (sym alone) (is_over alone live))
    round-Ready n run (has_returned h) =
        has_returned (step-IsReturned (ends 0) _ (step-IsReturned tick run h))

    wait_polled-IsReturned :
        (items : List Error) (run : Run W)
        → IsReturned
            (wait_polled gap end_time handle ack
              (poll (record run.notifier { items = items }))
              run).phase
    unfolding wait_polled poll fail acked close
    wait_polled-IsReturned [] run = (_, refl)
    wait_polled-IsReturned (e ∷ items) run = (err e, refl)

    waits-IsReturned :
        (run : Run W) → Ready 0 run → IsReturned (step gap end_time handle ack waits run).phase
    unfolding step when_waiting
    waits-IsReturned run (goes_on alone live early le) = absurd (omega arith)
    waits-IsReturned run (is_over alone live) =
        subst (λ (x : Run W). IsReturned x.phase)
          (sym (λ i. when_waiting gap end_time handle ack (live i) (alone i) run))
          (wait_polled-IsReturned run.notifier.items run)
    waits-IsReturned run (has_returned h) = step-IsReturned waits run h

    schedule-IsReturned :
        (n : ℕ) (run : Run W)
        → Ready n run
        → IsReturned (run_events gap end_time handle ack (schedule n) run).phase
    unfolding run_events
    schedule-IsReturned zero run h = waits-IsReturned run h
    schedule-IsReturned (suc n) run h = schedule-IsReturned n _ (round-Ready n run h)

-- If every batch returns, with or without an error, `n` rounds that reach over a minute end the
-- trigger.
pub schedule_returns :
    {W : Type 0} (gap_seconds : ℕ) (start_time : Time) (handle : Time → Exec W (Unit {0}))
    (ack : Exec W (Unit {0})) (n : ℕ) (w : W)
    → ((s : Time) (w : W) → ((handle s w).0 ≡ ok tt) ⊎ ((e : Error) × ((handle s w).0 ≡ err e)))
    → 60 ≤ n * gap_seconds
    → (r : Result (Unit {0})) × ((run_events
          (gap_seconds * second)
          (start_time + minute)
          handle
          ack
          (schedule n)
          (begin gap_seconds start_time w)).phase
        ≡ returned r)
unfolding begin
schedule_returns gap_seconds start_time handle ack n w returns enough =
    schedule-IsReturned (gap_seconds * second) (start_time + minute) handle ack returns n
      (begin gap_seconds start_time w) (goes_on refl refl (omega arith) (ground arith))
