-- ===== src/Data/Gorm.antt =====
-- gorm.io/gorm over MySQL, a parameter: the statements that internal/data builds, each on the pool of
-- connections or on the handle of an open transaction, and Transaction.
use codewave_timer.Base.{pos, ◌≢◌, ◌⊎◌, Has, ◌↔◌, ◌≤ℤ◌, ◌≡◌, List, Option, some, ℤ, ok, err, Error}
use codewave_timer.Exec.{Exec}
use codewave_timer.Model.{JobTimer, TaskTimer}

pub data Handle : Type 0 where
  pool tx : Handle

pub record Gorm (W : Type 0) : Type 0 where
  pub create_timer : Handle → JobTimer → Exec W JobTimer
  pub update_timer : Handle → ℤ → JobTimer → Exec W (Unit {0})
  pub delete_timer : Handle → ℤ → Exec W (Unit {0})
  pub first_timer : Handle → ℤ → Exec W JobTimer
  pub find_timers : Handle → ℤ → Exec W (List JobTimer)
  pub create_tasks : Handle → List TaskTimer → Exec W (Unit {0})
  pub update_task : Handle → ℤ → TaskTimer → Exec W (Unit {0})
  pub find_tasks : Handle → ℤ → ℤ → ℤ → Exec W (List TaskTimer)
  pub first_task : Handle → ℤ → ℤ → Exec W TaskTimer
  pub transaction : Exec W (Unit {0}) → Exec W (Unit {0})

-- The documented behaviour on which the status of timers relies. `status` is the status that the
-- pool reads for a timer's number. Updates of a struct writes the fields that are not zero, and has
-- no error for a row that is not there; on the pool it is committed at once. Transaction does not
-- call its function when it cannot begin; one whose function fails undoes only what was done through
-- its own handle, which the pool has not seen.
pub record HasTransactions {W : Type 0} (g : Gorm W) : Type 0 where
  pub status : ℤ → W → Option ℤ
  pub first_pool :
      (id : ℤ) (timer : JobTimer) (w : W)
      → (g.first_timer pool id w).0 ≡ ok timer
      → status id (g.first_timer pool id w).1 ≡ some timer.status
  pub update_pool :
      (id : ℤ) (timer : JobTimer) (old : ℤ) (w : W)
      → status id w ≡ some old
      → timer.status ≢ pos 0
      → (g.update_timer pool id timer w).0 ≡ ok tt
      → status id (g.update_timer pool id timer w).1 ≡ some timer.status
  pub rolled_back :
      (m : Exec W (Unit {0})) (w : W) (e : Error)
      → (m w).0 ≡ err e
      → ((x : Error) × ((g.transaction m w).0 ≡ err x)
          × ((id : ℤ) → status id (g.transaction m w).1 ≡ status id w))
        ⊎ (((g.transaction m w).0 ≡ err e)
            × ((id : ℤ) → status id (g.transaction m w).1 ≡ status id (m w).1))

-- The documented behaviour of the query of GetTasksByTimeRange, when it succeeds: the rows whose time
-- is between both ends, which belong to the range, and which have the status.
pub record HasRows {W : Type 0} (g : Gorm W) : Type 0 where
  pub rows : W → List TaskTimer
  pub find_tasks_iff :
      (low high status : ℤ) (w : W) (found : List TaskTimer)
      → (g.find_tasks pool low high status w).0 ≡ ok found
      → (t : TaskTimer)
      → Has t found
        ↔ (Has t (rows w) × (low ≤ℤ t.run_timer) × (t.run_timer ≤ℤ high) × (t.status ≡ status))
