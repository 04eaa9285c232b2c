-- ===== src/Biz/Trigger/Undisturbed.antt =====
-- What a batch of a trigger leaves as it is: handleBatch of internal/biz/trigger.go.
use codewave_timer.Base.{
  inl, inr, ◌⊎◌, Error, List, [], ◌∷◌, Bytes, ℤ, Result, ok, err, panic, spin,
}
use codewave_timer.GoLib.Clock.{Time, unix_milli}
use codewave_timer.Exec.{Exec, lift, attempt, ◌>>=◌}
use codewave_timer.Config.{Config}
use codewave_timer.Keys.{get_bucket}
use codewave_timer.Model.{TaskTimer}
use codewave_timer.Biz.Ports.{Context, TaskCache, TimerTaskRepo}
use codewave_timer.Biz.Trigger.{from_database, get_tasks_by_time, submit_all, handle_batch}
use codewave_timer.Biz.Trigger.Batch.{key_of}

-- What holds of the world still holds after `m`, whatever its result is.
abbrev pub Stays : {W A : Type 0} → (W → Type 0) → Exec W A → Type 0
Stays {W} P m = (w : W) → P w → P (m w).1

module _ {W A B : Type 0} (P : W → Type 0) where
  pub >>=-Stays :
      (m : Exec W A) (f : A → Exec W B) → Stays P m → ((a : A) → Stays P (f a)) → Stays P (m >>= f)
  >>=-Stays m f hm hf w h = next (m w) (hm w h)
    where
      next : (p : Result A × W) → P p.1 → P (((λ w'. p) >>= f) w).1
      next (ok a, w') g = hf a w' g
      next (err e, w') g = g
      next (panic, w') g = g
      next (spin, w') g = g

-- The batches and the acknowledgement of a trigger leave what `P` says of the world.
pub record Undisturbed {W : Type 0} (tasks : TimerTaskRepo W) (cache : TaskCache W)
    (submit : Bytes → Exec W (Unit {0})) (ack : Exec W (Unit {0})) (P : W → Type 0) : Type 0 where
  pub reads :
      (ctx : Context) (key : Bytes) (from to : ℤ)
      → Stays P (cache.get_tasks_by_time ctx key from to)
  pub queries :
      (ctx : Context) (from to status : ℤ)
      → Stays P (tasks.get_tasks_by_time_range ctx from to status)
  pub submits : (key : Bytes) → Stays P (submit key)
  pub acks : Stays P ack

module _ {W : Type 0} (conf : Config) (tasks : TimerTaskRepo W) (cache : TaskCache W)
    (submit : Bytes → Exec W (Unit {0})) (ack : Exec W (Unit {0})) (P : W → Type 0)
    (laws : Undisturbed tasks cache submit ack P) where
  submit_all-Stays : (ts : List TaskTimer) → Stays P (submit_all conf tasks cache submit ts)
  unfolding submit_all
  submit_all-Stays [] w h = h
  submit_all-Stays (t ∷ ts) w h =
      >>=-Stays P (submit (key_of t)) _ (laws.submits (key_of t)) (λ u. submit_all-Stays ts) w h

  get_tasks_by_time-Stays :
      (ctx : Context) (key : Bytes) (bucket : ℤ) (start end : Time)
      → Stays P (get_tasks_by_time conf tasks cache submit ctx key bucket start end)
  unfolding get_tasks_by_time from_database
  get_tasks_by_time-Stays ctx key bucket start end =
      >>=-Stays P (attempt (cache.get_tasks_by_time ctx key (unix_milli start) (unix_milli end))) _
        (laws.reads ctx key (unix_milli start) (unix_milli end)) (λ o. chosen o)
    where
      chosen :
          (o : List TaskTimer ⊎ Error)
          → Stays P (from_database conf tasks cache submit ctx bucket start end o)
      chosen (inl found) w h = h
      chosen (inr e) w h =
          >>=-Stays P (tasks.get_tasks_by_time_range ctx (unix_milli start) (unix_milli end) _) _
            (laws.queries ctx (unix_milli start) (unix_milli end) _) (λ rows w h. h) w h

  pub handle_batch-Stays :
      (ctx : Context) (key : Bytes) (start end : Time)
      → Stays P (handle_batch conf tasks cache submit ctx key start end)
  unfolding handle_batch
  handle_batch-Stays ctx key start end =
      >>=-Stays P (lift (get_bucket key)) _ (λ w h. h)
        (λ bucket.
          >>=-Stays P (get_tasks_by_time conf tasks cache submit ctx key bucket start end) _
            (get_tasks_by_time-Stays ctx key bucket start end) submit_all-Stays)
