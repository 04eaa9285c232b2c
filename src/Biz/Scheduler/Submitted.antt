-- ===== src/Biz/Scheduler/Submitted.antt =====
-- What one round of the scheduler of internal/biz/scheduler.go submits.
use codewave_timer.Base.{
  ℕ, zero, suc, ◌-◌, ◌≡◌, refl, sym, ◌∙◌, List, [], ◌∷◌, ◌++◌, append_assoc, append-nil, inl, inr,
  ◌⊎◌, pos, ok, err, Error,
}
use codewave_timer.GoLib.Clock.{Time, minute}
use codewave_timer.Exec.{Exec}
use codewave_timer.Config.{Config}
use codewave_timer.Biz.Ports.{Host}
use codewave_timer.Biz.Scheduler.{Slice, submit_or_log, handle_slice, handle_from, handle_slices}

abbrev slice : Time → ℕ → Slice
slice t i = record { at = t; bucket_id = pos i }

-- The slices of the buckets from `i` on, `left` of them: that of the minute before and the present
-- one of each.
abbrev pub slices_from : Time → ℕ → ℕ → List Slice
slices_from t i zero = []
slices_from t i (suc left) = slice (t - minute) i ∷ slice t i ∷ slices_from t (suc i) left

-- `log` is what has been submitted so far; the pool returns, with or without an error, and the clock
-- shows `t`.
module _ {W : Type 0} (host : Host W) (submit : Slice → Exec W (Unit {0})) (log : W → List Slice)
    (t : Time) (clock : (w : W) → host.now w ≡ (ok t, w))
    (pool_returns : (s : Slice) (w : W)
      → (((submit s w).0 ≡ ok tt) ⊎ ((e : Error) × ((submit s w).0 ≡ err e)))
        × (log (submit s w).1 ≡ log w ++ s ∷ [])) where
  submitted : (s : Slice) (w : W) → submit_or_log host submit s w ≡ (ok tt, (submit s w).1)
  unfolding submit_or_log
  submitted s w = elim (pool_returns s w).0 [ inl e ↦ rw e refl | inr (x, e) ↦ rw e refl ]

  handle_slice-submits :
      (i : ℕ) (w : W)
      → handle_slice host submit (pos i) w
        ≡ (ok tt, (submit (slice t i) (submit (slice (t - minute) i) w).1).1)
  unfolding handle_slice
  handle_slice-submits i w =
      rw (clock w, submitted (slice (t - minute) i) w, submitted (slice t i) _) refl

  two_more :
      (i : ℕ) (w : W) (rest : List Slice)
      → log (submit (slice t i) (submit (slice (t - minute) i) w).1).1 ++ rest
        ≡ log w ++ slice (t - minute) i ∷ slice t i ∷ rest
  two_more i w rest =
      rw
        (
          (pool_returns (slice t i) (submit (slice (t - minute) i) w).1).1,
          (pool_returns (slice (t - minute) i) w).1,
          append_assoc (log w ++ slice (t - minute) i ∷ []) (slice t i ∷ []) rest,
          append_assoc (log w) (slice (t - minute) i ∷ []) (slice t i ∷ rest),
        )
        refl

  handle_from-submits :
      (i left : ℕ) (w : W)
      → ((handle_from host submit i left w).0 ≡ ok tt)
        × (log (handle_from host submit i left w).1 ≡ log w ++ slices_from t i left)
  unfolding handle_from
  handle_from-submits i zero w = (refl, sym (append-nil (log w)))
  handle_from-submits i (suc left) w =
      let (fine, e) =
        handle_from-submits (suc i) left
          (submit (slice t i) (submit (slice (t - minute) i) w).1).1 in
      rw (handle_slice-submits i w) (fine, e ∙ two_more i w (slices_from t (suc i) left))

  -- A round submits, for each of the configured buckets in turn, the slice of the minute before and
  -- then that of the present minute, and nothing else, if the clock does not move on during the round;
  -- it goes on after errors of the pool.
  pub handle_slices-submits :
      (conf : Config) (w : W)
      → ((handle_slices host submit conf w).0 ≡ ok tt)
        × (log (handle_slices host submit conf w).1
            ≡ log w ++ slices_from t 0 conf.scheduler.buckets_num)
  unfolding handle_slices
  handle_slices-submits conf w = handle_from-submits 0 conf.scheduler.buckets_num w
