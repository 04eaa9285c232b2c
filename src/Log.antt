-- ===== src/Log.antt =====
-- The levels of the log: pkg/log/log.go. A line is its level and its text, which fmt has formatted;
-- the date and the place that log.Logger adds are left out.
use codewave_timer.Base.{
  ◌&&◌, ◌||◌, ◌++◌, ◌≡◌, sym, ◌∙◌, ap, append_assoc, append-nil, arith, Bool, List, [], ◌∷◌, Bytes,
  ℤ, pos, eqb_ℤ, leb_ℤ, if◌then◌else◌, select,
}

abbrev pub LogLevel : Type 0
LogLevel = ℤ

abbrev pub error_level : LogLevel
error_level = pos 0

abbrev pub warn_level : LogLevel
warn_level = pos 1

abbrev pub info_level : LogLevel
info_level = pos 2

pub record Logger : Type 0 where
  pub level : LogLevel
  pub lines : List (LogLevel × Bytes)  -- what has been written, oldest first

-- init
abbrev pub default_logger : Logger
default_logger = record { level = warn_level; lines = [] }

-- There is a log.Logger for each of the three levels.
abbrev pub has_logger : LogLevel → Bool
has_logger level = eqb_ℤ level error_level || (eqb_ℤ level warn_level || eqb_ℤ level info_level)

-- SetLevel
unfoldable pub set_level : LogLevel → Logger → Logger
set_level level l = record l { level = level }

unfoldable pub logf : LogLevel → Bytes → Logger → Logger
logf level text l =
    if leb_ℤ level l.level
    then if has_logger level then record l { lines = l.lines ++ (level, text) ∷ [] } else l
    else l

unfoldable pub error_contextf : Bytes → Logger → Logger
unfolding logf
error_contextf text = logf error_level text

unfoldable pub warn_contextf : Bytes → Logger → Logger
unfolding logf
warn_contextf text = logf warn_level text

unfoldable pub info_contextf : Bytes → Logger → Logger
unfolding logf
info_contextf text = logf info_level text

-- Calls one after the other.
abbrev logs : List (LogLevel × Bytes) → Logger → Logger
logs [] l = l
logs ((level, text) ∷ calls) l = logs calls (logf level text l)

abbrev is_written : LogLevel → LogLevel × Bytes → Bool
is_written level (k, text) = leb_ℤ k level && has_logger k

logf-level : (level : LogLevel) (text : Bytes) (l : Logger) → (logf level text l).level ≡ l.level
unfolding logf
logf-level level text l = ground arith

logf-lines :
    (level : LogLevel) (text : Bytes) (l : Logger)
    → (logf level text l).lines ≡ l.lines ++ select (is_written l.level) ((level, text) ∷ [])
unfolding logf
logf-lines level text l = ground (arith, append-nil l.lines)

select-cons :
    {A : Type 0} (keep : A → Bool) (x : A) (xs : List A)
    → select keep (x ∷ []) ++ select keep xs ≡ select keep (x ∷ xs)
select-cons keep x xs = ground arith

-- Calls at one level of the logger write, in their order, exactly those of a known level that is not
-- above it.
logs-lines :
    (calls : List (LogLevel × Bytes)) (l : Logger)
    → (logs calls l).lines ≡ l.lines ++ select (is_written l.level) calls
logs-lines [] l = sym (append-nil l.lines)
logs-lines ((level, text) ∷ calls) l =
    logs-lines calls (logf level text l)
    ∙ rw (logf-level level text l, logf-lines level text l)
        (append_assoc l.lines (select (is_written l.level) ((level, text) ∷ []))
            (select (is_written l.level) calls)
          ∙ ap (λ (k : List (LogLevel × Bytes)). l.lines ++ k)
              (select-cons (is_written l.level) (level, text) calls))
