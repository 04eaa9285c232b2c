-- ===== src/Biz/Trigger/Run/Slice.antt =====
-- A trigger on the key that the scheduler sends it.
use codewave_timer.Base.{
  ℕ, ◌+◌, ◌*◌, ◌/◌, ◌<◌, ◌≤◌, ◌≡◌, ◌==◌, ap, sym, ◌∙◌, arith, List, [], false, ℤ, ok,
}
use codewave_timer.GoLib.Clock.{Time, Location, second, minute}
use codewave_timer.Exec.{Exec}
use codewave_timer.Keys.{get_slice_msg_key}
use codewave_timer.Keys.SliceKey.{HasFourDigitYear, get_start_minute-get_slice_msg_key}
use codewave_timer.Biz.Trigger.Run.{
  Event, Phase, ticking, waiting, returned, work, work_from, final, result,
}
use codewave_timer.Biz.Trigger.Run.Invariant.{covered}
use codewave_timer.Biz.Trigger.Run.Ack.{acknowledged_complete}

result-ok : {W : Type 0} (p : Phase) (w : W) → (result p w).0 ≡ ok tt → p ≡ returned (ok tt)
unfolding result
result-ok ticking w h = absurd (ground arith)
result-ok waiting w h = absurd (ground arith)
result-ok (returned r) w h = ap returned h

module _ {W : Type 0} (loc : Location) (gap_seconds : ℕ) (handle : Time → Time → Exec W (Unit {0}))
    (ack : Exec W (Unit {0})) where
  work_from-ok :
      (events : List Event) (start_time : Time) (w : W)
      → 0 < gap_seconds
      → (work_from loc gap_seconds handle ack events (ok start_time) w).0 ≡ ok tt
      → (final loc gap_seconds handle ack events start_time w).phase ≡ returned (ok tt)
  unfolding work_from final
  work_from-ok events start_time w pos_gap h =
      let some_gap : (gap_seconds == 0) ≡ false = ground arith in
      result-ok (final loc gap_seconds handle ack events start_time w).phase
        (final loc gap_seconds handle ack events start_time w).world (rw some_gap at h)

  -- With a period from 1 to 60 seconds and in a year from 0 to 9999, a Work without an error on the key
  -- that the scheduler made for the time `t` has seen no batch fail, and each instant of the minute of
  -- `t` belongs to exactly one of the batches that have succeeded.
  pub work_complete :
      (t : Time) (b : ℤ) (events : List Event) (w : W)
      → HasFourDigitYear loc t
      → 0 < gap_seconds
      → gap_seconds ≤ 60
      → (work loc gap_seconds handle ack (get_slice_msg_key loc t b) events w).0 ≡ ok tt
      → let run = final loc gap_seconds handle ack events (t / minute * minute) w in
        (run.failed ≡ [])
        × ((u : Time)
            → u / minute ≡ t / minute
            → covered (gap_seconds * second) run.succeeded u ≡ 1)
  unfolding work final
  work_complete t b events w year pos_gap small h =
      let start : Time = t / minute * minute in
      let e : work loc gap_seconds handle ack (get_slice_msg_key loc t b) events w
          ≡ work_from loc gap_seconds handle ack events (ok start) w =
        ap (λ r. work_from loc gap_seconds handle ack events r w)
          (get_start_minute-get_slice_msg_key loc t b year) in
      let (fine, once) =
        acknowledged_complete gap_seconds start (λ s. handle s (s + gap_seconds * second)) ack
          events w pos_gap small
          (work_from-ok events start w pos_gap (ap (λ p. p.0) (sym e) ∙ h)) in
      (fine, λ u same. once u (omega arith) (omega arith))
