-- ===== src/Tests/Slice.antt =====
-- A trigger that works on a slice of the present minute.
use codewave_timer.Base.{◌*◌, ◌/◌, ◌≡◌, refl, arith, List, [], ◌∷◌, pos, ok}
use codewave_timer.GoLib.Calendar.{to_date, year_split, month_split, month_lengths, year_length}
use codewave_timer.GoLib.Clock.{Time, second, minute, wall}
use codewave_timer.Exec.{Exec, pure}
use codewave_timer.Keys.{get_slice_msg_key}
use codewave_timer.Keys.SliceKey.{HasFourDigitYear, get_start_minute-get_slice_msg_key}
use codewave_timer.Biz.SafeChan.{new_safe_chan, put, poll, close}
use codewave_timer.Biz.Trigger.Run.{
  Event, tick, ends, waits, run_events, begin, take_at, work, final,
}
use codewave_timer.Biz.Trigger.Run.Invariant.{covered}
use codewave_timer.Biz.Trigger.Run.Slice.{work_complete}
use codewave_timer.Tests.Server.{World, empty}
use codewave_timer.Tests.Biz.{shanghai, t0}

pub t0-HasFourDigitYear : HasFourDigitYear shanghai t0
unfolding wall to_date year_split month_split month_lengths year_length
t0-HasFourDigitYear = record { after_zero = omega arith; before_10000 = omega arith }

abbrev handled : Time → Time → Exec World (Unit {0})
handled s e = pure tt

abbrev pub events : List Event
events = tick ∷ tick ∷ ends 1 ∷ ends 0 ∷ waits ∷ []

works :
    (work shanghai 30 handled (pure tt) (get_slice_msg_key shanghai t0 (pos 2)) events empty).0
    ≡ ok tt
unfolding work run_events begin take_at new_safe_chan put poll close
works = rw (get_start_minute-get_slice_msg_key shanghai t0 (pos 2) t0-HasFourDigitYear) refl

work_complete_example :
    let run = final shanghai 30 handled (pure tt) events (t0 / minute * minute) empty in
    (run.failed ≡ [])
    × ((u : Time) → u / minute ≡ t0 / minute → covered (30 * second) run.succeeded u ≡ 1)
work_complete_example =
    work_complete shanghai 30 handled (pure tt) t0 (pos 2) events empty t0-HasFourDigitYear
      (omega arith) (omega arith) works
