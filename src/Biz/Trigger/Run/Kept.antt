-- ===== src/Biz/Trigger/Run/Kept.antt =====
-- What the batches of a trigger have done stands while the trigger goes on.
use codewave_timer.Base.{
  ◌≡◌, refl, List, [], ◌∷◌, Option, none, some, All, Result, ok, err, panic, spin, Error,
}
use codewave_timer.GoLib.Clock.{Time, Duration}
use codewave_timer.Exec.{Exec}
use codewave_timer.Biz.SafeChan.{SafeChan, poll}
use codewave_timer.Biz.Trigger.Run.{
  Event, tick, ends, waits, Phase, ticking, waiting, returned, Run, take_at, step, run_events,
  spawn, fail, tick_polled, settle, ended, acked, wait_polled, when_ticking, when_waiting,
}

All-map :
    {A : Type 0} {P Q : A → Type 0} (f : (a : A) → P a → Q a) (xs : List A) → All P xs → All Q xs
All-map f [] h = h
All-map f (x ∷ xs) (p, h) = (f x p, All-map f xs h)

-- `Kept s w`: the effect of the batch from `s` stands in `w`.
module _ {W : Type 0} (gap : Duration) (end_time : Time) (handle : Time → Exec W (Unit {0}))
    (ack : Exec W (Unit {0})) (Good : W → Type 0) (Kept : Time → W → Type 0)
    (does : (s : Time) (w : W) → Good w → (handle s w).0 ≡ ok tt → Kept s (handle s w).1)
    (stays : (s s' : Time) (w : W) → Kept s w → Kept s (handle s' w).1)
    (good : (s : Time) (w : W) → Good w → Good (handle s w).1)
    (ack_stays : (s : Time) (w : W) → Kept s w → Kept s (ack w).1)
    (ack_good : (w : W) → Good w → Good (ack w).1) where
  abbrev pub Keeps : Run W → Type 0
  Keeps run = Good run.world × All (λ s. Kept s run.world) run.succeeded

  settle-Keeps :
      (s : Time) (rest : List Time) (p : Result (Unit {0}) × W) (run : Run W)
      → Good p.1
      → (p.0 ≡ ok tt → Kept s p.1)
      → All (λ s'. Kept s' p.1) run.succeeded
      → Keeps run
      → Keeps (settle gap end_time handle ack s rest p run)
  unfolding settle
  settle-Keeps s rest (ok u, w) run g now old h = (g, (now refl, old))
  settle-Keeps s rest (err e, w) run g now old h = (g, old)
  settle-Keeps s rest (panic, w) run g now old h = (g, old)
  settle-Keeps s rest (spin, w) run g now old h = h

  ended-Keeps :
      (o : Option (Time × List Time)) (run : Run W)
      → Keeps run
      → Keeps (ended gap end_time handle ack o run)
  unfolding ended
  ended-Keeps none run h = h
  ended-Keeps (some (s, rest)) run h =
      settle-Keeps s rest (handle s run.world) run (good s run.world h.0) (does s run.world h.0)
        (All-map (λ s'. stays s' s run.world) run.succeeded h.1) h

  tick_polled-Keeps :
      (p : Option Error × SafeChan Error) (run : Run W)
      → Keeps run
      → Keeps (tick_polled gap end_time handle ack p run)
  unfolding tick_polled fail spawn
  tick_polled-Keeps (some e, n) run h = h
  tick_polled-Keeps (none, n) run h = h

  wait_polled-Keeps :
      (p : Option Error × SafeChan Error) (run : Run W)
      → Keeps run
      → Keeps (wait_polled gap end_time handle ack p run)
  unfolding wait_polled fail acked
  wait_polled-Keeps (some e, n) run h = h
  wait_polled-Keeps (none, n) run h =
      (ack_good run.world h.0, All-map (λ s. ack_stays s run.world) run.succeeded h.1)

  when_ticking-Keeps :
      (p : Phase) (run : Run W) → Keeps run → Keeps (when_ticking gap end_time handle ack p run)
  unfolding when_ticking
  when_ticking-Keeps ticking run h = tick_polled-Keeps (poll run.notifier) run h
  when_ticking-Keeps waiting run h = h
  when_ticking-Keeps (returned r) run h = h

  when_waiting-Keeps :
      (p : Phase) (ss : List Time) (run : Run W)
      → Keeps run
      → Keeps (when_waiting gap end_time handle ack p ss run)
  unfolding when_waiting
  when_waiting-Keeps waiting [] run h = wait_polled-Keeps (poll run.notifier) run h
  when_waiting-Keeps waiting (s ∷ ss) run h = h
  when_waiting-Keeps ticking ss run h = h
  when_waiting-Keeps (returned r) ss run h = h

  step-Keeps : (e : Event) (run : Run W) → Keeps run → Keeps (step gap end_time handle ack e run)
  unfolding step
  step-Keeps tick run h = when_ticking-Keeps run.phase run h
  step-Keeps (ends i) run h = ended-Keeps (take_at i run.running) run h
  step-Keeps waits run h = when_waiting-Keeps run.phase run.running run h

  pub run_events-Keeps :
      (es : List Event) (run : Run W)
      → Keeps run
      → Keeps (run_events gap end_time handle ack es run)
  unfolding run_events
  run_events-Keeps [] run h = h
  run_events-Keeps (e ∷ es) run h = run_events-Keeps es _ (step-Keeps e run h)
