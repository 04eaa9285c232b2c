-- ===== src/TimerTask/Firings.antt =====
-- The goroutines of a process whose jobs become due: internal/utils/inner_task_timer.go.
use codewave_timer.Base.{ℕ, zero, suc, ◌≡◌, sym, ◌∙◌, List, [], ◌∷◌, ◌++◌, append_assoc, append-nil}
use codewave_timer.TimerTask.{Process, CronFunc, goes, go, call}

-- A function that is due so many times.
abbrev pub fires : {J W : Type 0} → ℕ → CronFunc J → Process J W → Process J W
fires zero f p = p
fires (suc n) f p = fires n f (call f p).1

abbrev pub repeated : {A : Type 0} → ℕ → A → List A
repeated zero a = []
repeated (suc n) a = a ∷ repeated n a

pub fires-begun :
    {J W : Type 0} (n : ℕ) (job : J) (p : Process J W)
    → (fires n (goes job) p).begun ≡ p.begun ++ repeated n job
unfolding call go
fires-begun zero job p = sym (append-nil p.begun)
fires-begun (suc n) job p =
    fires-begun n job (record p { begun = p.begun ++ job ∷ [] })
    ∙ append_assoc p.begun (job ∷ []) (repeated n job)
