-- ===== src/Data/Migration/Left.antt =====
-- What a trigger of internal/biz/trigger.go leaves as it is when its cache is in redis.
use codewave_timer.Base.{ℕ, ◌≡◌, refl, sym, inl, inr, List, subst, Bytes, ℤ, ◌-ℤ◌, pos}
use codewave_timer.GoLib.Clock.{Location}
use codewave_timer.Exec.{Exec}
use codewave_timer.Redis.{RedisServer, IsRedis, client_zrange_by_score}
use codewave_timer.Biz.Ports.{Context, Host, TimerTaskRepo}
use codewave_timer.Biz.Trigger.Undisturbed.{Stays, Undisturbed}
use codewave_timer.Data.TaskCache.{redis_cache, get_tasks_by_time}

-- What the database's queries, the pool and the acknowledgement leave of the world.
pub record IsLeft {W : Type 0} (tasks : TimerTaskRepo W) (submit : Bytes → Exec W (Unit {0}))
    (ack : Exec W (Unit {0})) (P : W → Type 0) : Type 0 where
  pub queries :
      (ctx : Context) (from to status : ℤ)
      → Stays P (tasks.get_tasks_by_time_range ctx from to status)
  pub submits : (key : Bytes) → Stays P (submit key)
  pub acks : Stays P ack

module _ {W : Type 0} (s : RedisServer W) (redis : IsRedis s) (host : Host W) (loc : Location)
    (n : ℕ) where
  -- A range query changes nothing, whether it is answered or not.
  read_only :
      (ctx : Context) (table : Bytes) (start end : ℤ) (w : W)
      → (get_tasks_by_time s host loc n ctx table start end w).1 ≡ w
  unfolding get_tasks_by_time client_zrange_by_score
  read_only ctx table start end w =
      elim (redis.sends (List Bytes) (λ v. (s.zrange_by_score table start (end -ℤ pos 1) v, v)) w) [
        | inl e ↦ rw e refl
        | inr (x, inl e) ↦ rw e refl
        | inr (x, inr e) ↦ rw e refl
      ]

  pub undisturbed :
      (tasks : TimerTaskRepo W) (submit : Bytes → Exec W (Unit {0})) (ack : Exec W (Unit {0}))
      (P : W → Type 0)
      → IsLeft tasks submit ack P
      → Undisturbed tasks (redis_cache s host loc n) submit ack P
  unfolding redis_cache
  undisturbed tasks submit ack P left = record {
    reads = λ ctx key from to w h. subst P (sym (read_only ctx key from to w)) h;
    queries = left.queries;
    submits = left.submits;
    acks = left.acks;
  }
