-- ===== src/Base/Fallible.antt =====
-- Fallible code. A Go function that returns `(T, error)` gives `ok` or `err`; `panic` is a run-time
-- panic; `spin` is a call that does not come back: a loop that has
-- used up the fuel of the model, or the end of the process.
use Prim.Native.Nat.{ℕ}
use mathlib.Core.Option.{Option, none, some}

-- The errors that the program makes, and those of other libraries, by number.
pub data Error : Type 0 where
  invalid_key : Error  -- fmt.Errorf("invalid format of msg key …") and the like
  bad_time : Error  -- a refusal of time.ParseInLocation
  bad_number : Error  -- strconv.ErrSyntax
  out_of_range : Error  -- strconv.ErrRange
  end_before_start : Error
  no_next_time : Error  -- "fail to parse time from cron"
  lock_acquired_by_others : Error
  delete_lock_failure : Error
  delay_expire_failed : Error
  lock_timeout : Error → Error  -- a wrap, fmt.Errorf("… %w", err)
  wrong_status : Error
  timer_failed : Error → Error  -- fmt.Errorf("get timer failed … %w", err)
  task_failed : Error → Error
  nil_context : Error
  service_failed : Error → Error  -- errors.Join(errors.New("… timer failed"), err)
  disable_failed : Error
  foreign : ℕ → Error

pub data Result {ℓ} (A : Type ℓ) : Type ℓ where
  ok : A → Result A
  err : Error → Result A
  panic spin : Result A

infixl 5 ◌>>=◌
abbrev pub ◌>>=◌ {ℓ κ} : {A : Type ℓ} {B : Type κ} → Result A → (A → Result B) → Result B
ok a >>= f = f a
err e >>= f = err e
panic >>= f = panic
spin >>= f = spin

-- A Go result `(v, err)` whose callers drop `v` on an error.
abbrev pub checked {ℓ} : {A : Type ℓ} → A × Option Error → Result A
checked (a, none) = ok a
checked (a, some e) = err e
