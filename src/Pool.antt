-- ===== src/Pool.antt =====
-- The pool of goroutines: internal/utils/pool.go over github.com/panjf2000/ants, a parameter.
use codewave_timer.Base.{ℕ, ℤ, err, panic, Result}
use codewave_timer.GoLib.Clock.{minute}
use codewave_timer.Exec.{Exec}

-- `Task` is a func(); NewPool takes the size and the time after which an idle goroutine ends.
pub record Ants (W : Type 0) : Type 1 where
  pub Pool : Type 0
  pub Task : Type 0
  pub new_pool : ℤ → ℕ → Exec W Pool
  pub submit : Pool → Task → Exec W (Unit {0})

module _ {W : Type 0} (ants : Ants W) where
  open ants use {Pool, Task}

  -- Submit
  unfoldable pub submit : Pool → Task → Exec W (Unit {0})
  submit pool task = ants.submit pool task

  -- `if err != nil { panic(err) }`
  abbrev pool_or_panic : Result Pool × W → Result Pool × W
  pool_or_panic (err e, w) = (panic, w)
  pool_or_panic r = r

  unfoldable pub new_go_worker_pool : ℤ → Exec W Pool
  new_go_worker_pool size w = pool_or_panic (ants.new_pool size minute w)
