-- ===== src/Biz/Trigger/Batch.antt =====
-- What a batch of a trigger hands to the executor: handleBatch of internal/biz/trigger.go.
use codewave_timer.Base.{
  ◌≡◌, sym, ap, ◌∙◌, List, [], ◌∷◌, ◌++◌, append_assoc, append-nil, map, Bytes, ok, ℤ, to_uint64,
}
use codewave_timer.GoLib.Clock.{Time, unix_milli}
use codewave_timer.Exec.{Exec, lift, >>=-eq-ok}
use codewave_timer.Config.{Config}
use codewave_timer.Keys.{get_bucket, union_timer_id_unix}
use codewave_timer.Model.{TaskTimer}
use codewave_timer.Biz.Ports.{Context, TaskCache, TimerTaskRepo}
use codewave_timer.Biz.Trigger.{from_database, get_tasks_by_time, submit_all, handle_batch}

-- The key by which the executor is called for a task.
abbrev pub key_of : TaskTimer → Bytes
key_of task = union_timer_id_unix (to_uint64 task.timer_id) task.run_timer

-- `log` is what the pool has taken.
module _ {W : Type 0} (conf : Config) (tasks : TimerTaskRepo W) (cache : TaskCache W)
    (submit : Bytes → Exec W (Unit {0})) (log : W → List Bytes)
    (takes : (key : Bytes) (w : W)
      → (submit key w).0 ≡ ok tt
      → log (submit key w).1 ≡ log w ++ key ∷ []) where
  pub submit_all-takes :
      (ts : List TaskTimer) (w : W)
      → (submit_all conf tasks cache submit ts w).0 ≡ ok tt
      → log (submit_all conf tasks cache submit ts w).1 ≡ log w ++ map key_of ts
  unfolding submit_all
  submit_all-takes [] w h = sym (append-nil (log w))
  submit_all-takes (t ∷ ts) w h =
      let (u, e, rest, same) = >>=-eq-ok (submit (key_of t)) _ w h in
      ap (λ p. log p.1) same
      ∙ submit_all-takes ts (submit (key_of t) w).1 rest
      ∙ ap (λ (l : List Bytes). l ++ map key_of ts) (takes (key_of t) w e)
      ∙ append_assoc (log w) (key_of t ∷ []) (map key_of ts)

  pub cached_tasks :
      (ctx : Context) (key : Bytes) (start end : Time) (w : W) (found : List TaskTimer)
      → (cache.get_tasks_by_time ctx key (unix_milli start) (unix_milli end) w).0 ≡ ok found
      → (bucket : ℤ)
      → get_tasks_by_time conf tasks cache submit ctx key bucket start end w
        ≡ (ok found, (cache.get_tasks_by_time ctx key (unix_milli start) (unix_milli end) w).1)
  unfolding get_tasks_by_time from_database
  cached_tasks ctx key start end w found h bucket = rw h

  -- A batch without an error whose tasks come from the cache has handed exactly these to the
  -- executor, each once and in their order.
  pub handle_batch-takes :
      (ctx : Context) (key : Bytes) (start end : Time) (w : W) (found : List TaskTimer)
      → (handle_batch conf tasks cache submit ctx key start end w).0 ≡ ok tt
      → (cache.get_tasks_by_time ctx key (unix_milli start) (unix_milli end) w).0 ≡ ok found
      → log (handle_batch conf tasks cache submit ctx key start end w).1
        ≡ log (cache.get_tasks_by_time ctx key (unix_milli start) (unix_milli end) w).1
          ++ map key_of found
  unfolding handle_batch
  handle_batch-takes ctx key start end w found h read =
      let (bucket, e1, h1, s1) = >>=-eq-ok (lift (get_bucket key)) _ w h in
      let (ts, e2, h2, s2) =
        >>=-eq-ok (get_tasks_by_time conf tasks cache submit ctx key bucket start end) _ w h1 in
      let e = cached_tasks ctx key start end w found read bucket in
      let w' = (cache.get_tasks_by_time ctx key (unix_milli start) (unix_milli end) w).1 in
      let same : handle_batch conf tasks cache submit ctx key start end w
          ≡ submit_all conf tasks cache submit found w' =
        s1 ∙ s2 ∙ cc e2 in
      ap (λ p. log p.1) same ∙ submit_all-takes found w' (sym (ap (λ p. p.0) same) ∙ h)
