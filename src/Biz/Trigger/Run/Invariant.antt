-- ===== src/Biz/Trigger/Run/Invariant.antt =====
-- What every event of a trigger keeps: its batches cover the minute so far, and no error is lost while
-- it runs.
use codewave_timer.Base.{
  ℕ, zero, suc, ◌+◌, ◌<◌, ◌≤◌, ◌≡◌, ◌≢◌, refl, ap, arith, inl, inr, Bool, true, false, ◌&&◌, List,
  [], ◌∷◌, Option, Option-cases, none, some, if◌then◌else◌, leb, ltb, Result, ok, err, panic, spin,
  Error,
}
use codewave_timer.GoLib.Clock.{Time, Duration}
use codewave_timer.Exec.{Exec}
use codewave_timer.Biz.SafeChan.{SafeChan, put, poll, close}
use codewave_timer.Biz.Trigger.Run.{
  Event, tick, ends, waits, Phase, ticking, waiting, returned, Run, take_at, step, run_events,
  spawn, fail, tick_polled, settle, ended, acked, wait_polled, when_ticking, when_waiting,
}

-- The number of batches of `ss` to which the instant `t` belongs.
abbrev pub covered : Duration → List Time → Time → ℕ
covered gap [] t = 0
covered gap (s ∷ ss) t = (if leb s t && ltb t (s + gap) then 1 else 0) + covered gap ss t

abbrev is_live : Phase → Bool
is_live ticking = true
is_live waiting = true
is_live (returned r) = false

covered-take_at :
    (gap : Duration) (t : Time) (i : ℕ) (ss : List Time) (u : Time) (rest : List Time)
    → take_at i ss ≡ some (u, rest)
    → covered gap ss t ≡ covered gap (u ∷ rest) t
unfolding take_at
covered-take_at gap t i [] u rest e = cc
covered-take_at gap t zero (s ∷ ss) u rest e = ground arith
covered-take_at gap t (suc i) (s ∷ ss) u rest e = elim (Option-cases (take_at i ss)) [
  | inl nothing ↦ absurd (ground arith)
  | inr ((v, vs), found) ↦ ground (arith, covered-take_at gap t i ss v vs found)
]

-- An error that is put into an open channel is there, or another one is.
put-nonempty :
    (e : Error) (c : SafeChan Error) → c.closed ≡ false → 0 < c.size → (put e c).items ≢ []
unfolding put
put-nonempty e c open_ small none_left = room c.items refl none_left
  where
    room : (items : List Error) → c.items ≡ items → (put e c).items ≢ []
    room [] i h = ground arith
    room (x ∷ xs) i h = ground arith

take_at-nil : (i : ℕ) → take_at i [] ≡ none
unfolding take_at
take_at-nil i = refl

module _ {W : Type 0} (gap : Duration) (begun end_time : Time) where
  pub record Inv (run : Run W) : Type 0 where
    pub counts :
        (t : Time)
        → covered gap run.running t + covered gap run.succeeded t + covered gap run.failed t
          ≡ (if leb begun t && ltb t run.start_time then 1 else 0)
    pub low : begun ≤ run.start_time
    pub size : 0 < run.notifier.size
    pub open_ : is_live run.phase ≡ true → run.notifier.closed ≡ false
    pub told : is_live run.phase ≡ true → run.notifier.items ≡ [] → run.failed ≡ []
    pub over : run.phase ≡ waiting → end_time ≤ run.start_time
    pub done :
        run.phase ≡ returned (ok tt)
        → (run.running ≡ []) × (run.failed ≡ []) × (end_time ≤ run.start_time)

  module _ (handle : Time → Exec W (Unit {0})) (ack : Exec W (Unit {0})) where
    spawn-Inv :
        (run : Run W) → Inv run → run.phase ≡ ticking → Inv (spawn gap end_time handle ack run)
    unfolding spawn
    spawn-Inv run inv live = record {
      counts = λ t. ground (arith, inv.counts t, inv.low);
      low = ground arith;
      size = inv.size;
      open_ = λ h. ground arith;
      told = λ h e. ground arith;
      over = λ h. ground arith;
      done = λ h. ground arith;
    }

    fail-Inv :
        (n : SafeChan Error) (e : Error) (run : Run W)
        → Inv run
        → 0 < n.size
        → Inv (fail gap end_time handle ack n e run)
    unfolding fail close
    fail-Inv n e run inv small = record {
      counts = inv.counts;
      low = inv.low;
      size = small;
      open_ = λ h. ground arith;
      told = λ h e. ground arith;
      over = λ h. ground arith;
      done = λ h. ground arith;
    }

    tick_polled-Inv :
        (items : List Error) (run : Run W)
        → run.notifier.items ≡ items
        → run.phase ≡ ticking
        → Inv run
        → Inv
            (tick_polled gap end_time handle ack (poll (record run.notifier { items = items })) run)
    unfolding tick_polled poll
    tick_polled-Inv [] run e live inv = spawn-Inv run inv live
    tick_polled-Inv (x ∷ xs) run e live inv = fail-Inv _ x run inv inv.size

    acked-Inv :
        (r : Result (Unit {0})) (w : W) (run : Run W)
        → Inv run
        → run.phase ≡ waiting
        → run.running ≡ []
        → run.notifier.items ≡ []
        → Inv (acked gap end_time handle ack (r, w) run)
    unfolding acked close
    acked-Inv r w run inv live alone none_left = record {
      counts = inv.counts;
      low = inv.low;
      size = inv.size;
      open_ = λ h. ground arith;
      told = λ h e. ground arith;
      over = λ h. ground arith;
      done = λ h. (alone, inv.told (ground arith) none_left, inv.over live);
    }

    settle-Inv :
        (s : Time) (rest : List Time) (p : Result (Unit {0}) × W) (run : Run W)
        → ((t : Time) → covered gap run.running t ≡ covered gap (s ∷ rest) t)
        → run.running ≢ []
        → Inv run
        → Inv (settle gap end_time handle ack s rest p run)
    unfolding settle put
    settle-Inv s rest (ok u, w) run c busy inv = record {
      counts = λ t. omega (arith, c t, inv.counts t);
      low = inv.low;
      size = inv.size;
      open_ = inv.open_;
      told = inv.told;
      over = inv.over;
      done = λ h. absurd (busy (inv.done h).0);
    }
    settle-Inv s rest (err e, w) run c busy inv = record {
      counts = λ t. omega (arith, c t, inv.counts t);
      low = inv.low;
      size = ground arith;
      open_ = λ h. ground arith;
      told = λ h none_left. absurd (put-nonempty e run.notifier (inv.open_ h) inv.size none_left);
      over = inv.over;
      done = λ h. absurd (busy (inv.done h).0);
    }
    settle-Inv s rest (panic, w) run c busy inv = record {
      counts = inv.counts;
      low = inv.low;
      size = inv.size;
      open_ = λ h. ground arith;
      told = λ h e. ground arith;
      over = λ h. ground arith;
      done = λ h. ground arith;
    }
    settle-Inv s rest (spin, w) run c busy inv = inv

    ends-Inv :
        (i : ℕ) (run : Run W)
        → Inv run
        → (o : Option (Time × List Time)) → take_at i run.running ≡ o
        → Inv (ended gap end_time handle ack o run)
    unfolding ended
    ends-Inv i run inv none e = inv
    ends-Inv i run inv (some (s, rest)) e =
        settle-Inv s rest (handle s run.world) run
          (λ t. covered-take_at gap t i run.running s rest e)
          (λ alone. cc (ap (take_at i) alone, take_at-nil i)) inv

    wait_polled-Inv :
        (items : List Error) (run : Run W)
        → run.notifier.items ≡ items
        → run.phase ≡ waiting
        → run.running ≡ []
        → Inv run
        → Inv
            (wait_polled gap end_time handle ack (poll (record run.notifier { items = items })) run)
    unfolding wait_polled poll
    wait_polled-Inv [] run e live alone inv =
        acked-Inv (ack run.world).0 (ack run.world).1 run inv live alone e
    wait_polled-Inv (x ∷ xs) run e live alone inv = fail-Inv _ x run inv inv.size

    when_ticking-Inv :
        (p : Phase) (run : Run W)
        → run.phase ≡ p
        → Inv run
        → Inv (when_ticking gap end_time handle ack p run)
    unfolding when_ticking
    when_ticking-Inv ticking run e inv = tick_polled-Inv run.notifier.items run refl e inv
    when_ticking-Inv waiting run e inv = inv
    when_ticking-Inv (returned r) run e inv = inv

    when_waiting-Inv :
        (p : Phase) (ss : List Time) (run : Run W)
        → run.phase ≡ p
        → run.running ≡ ss
        → Inv run
        → Inv (when_waiting gap end_time handle ack p ss run)
    unfolding when_waiting
    when_waiting-Inv waiting [] run e alone inv =
        wait_polled-Inv run.notifier.items run refl e alone inv
    when_waiting-Inv waiting (s ∷ ss) run e alone inv = inv
    when_waiting-Inv ticking ss run e alone inv = inv
    when_waiting-Inv (returned r) ss run e alone inv = inv

    step-Inv : (e : Event) (run : Run W) → Inv run → Inv (step gap end_time handle ack e run)
    unfolding step
    step-Inv tick run inv = when_ticking-Inv run.phase run refl inv
    step-Inv (ends i) run inv = ends-Inv i run inv (take_at i run.running) refl
    step-Inv waits run inv = when_waiting-Inv run.phase run.running run refl refl inv

    pub run_events-Inv :
        (es : List Event) (run : Run W) → Inv run → Inv (run_events gap end_time handle ack es run)
    unfolding run_events
    run_events-Inv [] run inv = inv
    run_events-Inv (e ∷ es) run inv = run_events-Inv es _ (step-Inv e run inv)
