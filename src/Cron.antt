-- ===== src/Cron.antt =====
-- The firing times of a cron expression: internal/utils/cron.go. The expressions themselves are those
-- of github.com/gorhill/cronexpr, a parameter; the current time is an argument.
pub mod Nexts
use codewave_timer.Base.{
  ℕ, zero, suc, ◌+◌, ◌-◌, ◌<◌, ◌≤◌, ◌≡◌, refl, Bool, true, false, List, [], ◌∷◌, ◌++◌, Bytes, ltb,
  if◌then◌else◌, Result, ok, err, panic, spin, ◌>>=◌, end_before_start, no_next_time, foreign,
}
use codewave_timer.GoLib.Clock.{Time, unix_nano_negative}

-- A pair `(expr, err)`.
pub data ParseResult (E : Type 0) : Type 0 where
  parsed : E → ParseResult E
  refused : ℕ → ParseResult E

-- cronexpr.Parse and Expression.Next. `next` is documented to return a later time, or the zero time,
-- which `unix_nano_negative` finds.
pub record CronLibrary : Type 1 where
  pub Expr : Type 0
  pub parse : Bytes → ParseResult Expr
  pub next : Expr → Time → Time

-- The documented behaviour of `next`: it is the first firing time after its argument, unless it is
-- the zero time.
pub record IsCron (c : CronLibrary) : Type 1 where
  pub Fires : c.Expr → Time → Type 0
  pub later : (e : c.Expr) (t : Time) → unix_nano_negative (c.next e t) ≡ false → t < c.next e t
  pub fires :
      (e : c.Expr) (t : Time) → unix_nano_negative (c.next e t) ≡ false → Fires e (c.next e t)
  pub first :
      (e : c.Expr) (t u : Time)
      → unix_nano_negative (c.next e t) ≡ false
      → Fires e u
      → t < u
      → c.next e t ≤ u

module _ (c : CronLibrary) where
  open c use {Expr, parse, next}

  abbrev pub parse_cron : Bytes → Result Expr
  parse_cron cron = elim (parse cron) [ parsed e ↦ ok e | refused n ↦ err (foreign n) ]

  unfoldable pub is_valid_cron_expr : Bytes → Bool
  is_valid_cron_expr cron = elim (parse cron) [ parsed e ↦ true | refused n ↦ false ]

  unfoldable pub next_from_now : Time → Bytes → Result Time
  next_from_now now cron = parse_cron cron >>= λ expr.
      let t = next expr now in if unix_nano_negative t then err no_next_time else ok t

  -- `for start.Before(end)`; the first argument is fuel.
  nexts_loop : ℕ → Expr → Time → Time → List Time → Result (List Time)
  nexts_loop zero expr end start nexts = spin
  nexts_loop (suc f) expr end start nexts =
      let t = next expr start in
      let rest = nexts_loop f expr end t (nexts ++ t ∷ []) in
      if ltb start end then if unix_nano_negative t then err no_next_time else rest else ok nexts

  unfoldable pub nexts_between : Bytes → Time → Time → Result (List Time)
  unfolding nexts_loop
  nexts_between cron start end =
      if ltb end start
      then err end_before_start
      else parse_cron cron >>= λ expr. nexts_loop (suc (end - start)) expr end start []

  unfoldable pub nexts_before : Time → Bytes → Time → Result (List Time)
  nexts_before now cron end = nexts_between cron now end
