-- ===== src/Tests/Migration.antt =====
-- A timer of the tests that is migrated, and a pool that keeps what it takes.
use codewave_timer.Base.{
  ◌<◌, inl, inr, Bool-cases, ltb, false, ok, bytes_eq, Bytes, [], ◌∷◌, ◌++◌, if◌then◌else◌, ◌+◌,
  ◌*◌, ◌/◌, refl, arith, List, pos, ◌%◌, ◌≡◌,
}
use codewave_timer.GoLib.Clock.{unix_nano_negative, Time, minute}
use codewave_timer.Cron.{IsCron}
use codewave_timer.Model.{TaskTimer}
use codewave_timer.Data.TaskCache.{redis_cache}
use codewave_timer.Data.TaskCache.Migrated.{year_2100}
use codewave_timer.Data.Migration.{migrate}
use codewave_timer.Exec.{Exec}
use codewave_timer.Biz.Trigger.{submit_all}
use codewave_timer.Tests.Server.{Entry, World, empty, server}
use codewave_timer.Tests.Biz.{shanghai, t0, host, ctx, jobs}
use codewave_timer.Tests.Rounds.{minutely, on, short, tasks}

-- A time that is valid is the next full minute.
pub full_minute :
    (e : minutely.Expr) (t : Time)
    → unix_nano_negative (minutely.next e t) ≡ false
    → minutely.next e t ≡ (t / minute + 1) * minute
unfolding unix_nano_negative
full_minute e t valid = elim (Bool-cases (ltb ((t / minute + 1) * minute) year_2100)) [
  | inl early ↦ rw early refl
  | inr late ↦ absurd (cc (rw late at valid))
]

unfoldable pub minutely-IsCron : IsCron minutely
minutely-IsCron = record {
  Fires = λ e t. t % minute ≡ 0;
  later = λ e t valid. omega (arith, full_minute e t valid);
  fires = λ e t valid. omega (arith, full_minute e t valid);
  first = λ e t u valid f low. omega (arith, full_minute e t valid);
}

pub minutely-dated : (e : minutely.Expr) (t : Time) → minutely.next e t < year_2100
minutely-dated e t = elim (Bool-cases (ltb ((t / minute + 1) * minute) year_2100)) [
  | inl early ↦ rw early (ground arith)
  | inr late ↦ rw late (omega arith)
]

-- The next full minute.
abbrev pub soon : Time
soon = (t0 / minute + 1) * minute

abbrev pub migrated : World
migrated = (migrate minutely short host jobs tasks server shanghai ctx on empty).1

-- A pool that keeps what it takes among the entries of the server, under a key of its own.
abbrev pub pool : Bytes
pool = 0 ∷ []

abbrev pub taken_in : List Entry → List Bytes
taken_in [] = []
taken_in (e ∷ es) =
    let rest = taken_in es in if bytes_eq e.key pool then rest ++ e.member ∷ [] else rest

abbrev pub log : World → List Bytes
log w = taken_in w.entries

abbrev pub submit : Bytes → Exec World (Unit {0})
submit key w =
    (ok tt, record w { entries = record { key = pool; member = key; score = pos 0 } ∷ w.entries })

pub all_taken :
    (ts : List TaskTimer) (w : World)
    → (submit_all short tasks (redis_cache server host shanghai 5) submit ts w).0 ≡ ok tt
unfolding submit_all
all_taken [] w = refl
all_taken (t ∷ ts) w = all_taken ts _
