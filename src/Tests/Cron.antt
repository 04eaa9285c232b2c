-- ===== src/Tests/Cron.antt =====
-- A cron library whose only expression fires at every full minute.
use codewave_timer.Base.{
  ◌+◌, ◌*◌, ◌/◌, ◌%◌, ◌<◌, ◌≡◌, ◌≢◌, ◌↔◌, refl, [], ◌∷◌, arith, codes, Bytes, List, ok, spin,
}
use codewave_timer.GoLib.Clock.{Time, second, minute, epoch, unix_nano_negative}
use codewave_timer.Cron.{CronLibrary, ParseResult, parsed, refused, IsCron, nexts_between}
use codewave_timer.Cron.Nexts.{Occurs, nexts_between_iff, nexts_between_total}

parse_text : Bytes → ParseResult Unit
parse_text [] = refused 1
parse_text (c ∷ s) = parsed tt

abbrev pub every_minute : CronLibrary
unfolding parse_text
every_minute = record { Expr = Unit; parse = parse_text; next = λ e t. (t / minute + 1) * minute }

pub every_minute-IsCron : IsCron every_minute
unfolding parse_text
every_minute-IsCron = record {
  Fires = λ e t. t % minute ≡ 0;
  later = λ e t valid. omega arith;
  fires = λ e t valid. omega arith;
  first = λ e t u valid f low. omega arith;
}

abbrev t0 : Time
t0 = epoch + 1700000000 * second

abbrev times : List Time
times = (epoch + 1700000040 * second) ∷ (epoch + 1700000100 * second) ∷ []

times_between : nexts_between every_minute (codes "* * * * *") t0 (t0 + 60 * second) ≡ ok times
unfolding nexts_between unix_nano_negative parse_text
times_between = refl

nexts_between_iff_example :
    Occurs (epoch + 1700000040 * second) times
    ↔ (((epoch + 1700000040 * second) % minute ≡ 0) × (t0 < epoch + 1700000040 * second))
unfolding parse_text every_minute-IsCron
nexts_between_iff_example =
    nexts_between_iff every_minute every_minute-IsCron (codes "* * * * *") t0 (t0 + 60 * second) tt
      times refl times_between (epoch + 1700000040 * second) (omega arith)

nexts_between_total_example :
    nexts_between every_minute (codes "* * * * *") t0 (t0 + 60 * second) ≢ spin
nexts_between_total_example =
    nexts_between_total every_minute every_minute-IsCron (codes "* * * * *") t0 (t0 + 60 * second)
