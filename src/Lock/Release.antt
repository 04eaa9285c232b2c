-- ===== src/Lock/Release.antt =====
-- Releasing and extending the lock touch it only for its owner.
use codewave_timer.Base.{
  ℕ, ◌≡◌, ◌≢◌, refl, ap, ◌∙◌, arith, ◌⊎◌, inl, inr, none, some, Bytes, bytes_eq, bytes_eq→eq,
  bytes_eq_refl, Bool-cases, Option-cases, if◌then◌else◌, ℤ, pos, ◌<ℤ◌, ok, err, Error, not, ◌==◌,
  bytes_eq_ne,
}
use codewave_timer.Redis.{RedisServer, IsRedis, eval_bool}
use codewave_timer.Lock.Options.{RedisLock}
use codewave_timer.Lock.Client.{lua_check_and_delete, lua_check_and_expire, delay_expire, unlock}
use codewave_timer.Lock.Owner.{Owns}

module _ {W : Type 0} (s : RedisServer W) (redis : IsRedis s) where
  owner_cases : (r : RedisLock) (w : W) → Owns s r w ⊎ (s.get r.key w ≢ some r.token)
  owner_cases r w = elim (Option-cases (s.get r.key w)) [
    | inl free ↦ inr (λ e. cc)
    | inr (u, taken) ↦ elim (Bool-cases (bytes_eq u r.token)) [
      | inl same ↦ inl (taken ∙ ap some (bytes_eq→eq u r.token same))
      | inr other ↦ inr (λ e. ground (arith, bytes_eq_refl u))
    ]
  ]

  delete_foreign :
      (key token : Bytes) (w : W)
      → s.get key w ≢ some token
      → lua_check_and_delete s key token w ≡ (0, w)
  unfolding lua_check_and_delete
  delete_foreign key token w foreign = elim (Option-cases (s.get key w)) [
    | inl free ↦ rw (free, lua_check_and_delete)
    | inr (u, taken) ↦
        rw (taken, lua_check_and_delete, bytes_eq_ne u token (λ e. foreign (taken ∙ ap some e)))
  ]

  expire_foreign :
      (key token : Bytes) (n : ℤ) (w : W)
      → s.get key w ≢ some token
      → lua_check_and_expire s key token n w ≡ (0, w)
  unfolding lua_check_and_expire
  expire_foreign key token n w foreign = elim (Option-cases (s.get key w)) [
    | inl free ↦ rw (free, lua_check_and_expire)
    | inr (u, taken) ↦
        rw (taken, lua_check_and_expire, bytes_eq_ne u token (λ e. foreign (taken ∙ ap some e)))
  ]

  delete_mine :
      (key token : Bytes) (w : W)
      → s.get key w ≡ some token
      → lua_check_and_delete s key token w ≡ s.del key w
  unfolding lua_check_and_delete
  delete_mine key token w mine = rw (mine, lua_check_and_delete, bytes_eq_refl token)

  pub expire_mine :
      (key token : Bytes) (n : ℤ) (w : W)
      → s.get key w ≡ some token
      → lua_check_and_expire s key token n w ≡ s.expire key n w
  unfolding lua_check_and_expire
  expire_mine key token n w mine = rw (mine, lua_check_and_expire, bytes_eq_refl token)

  -- A script that is sent runs, or its reply is an error, with or without effect.
  data Evaluated (f : W → ℕ × W) (w : W) : Type 0 where
    replied : eval_bool s f w ≡ (ok (not ((f w).0 == 0)), (f w).1) → Evaluated f w
    unsent : (e : Error) → eval_bool s f w ≡ (err e, w) → Evaluated f w
    unheard : (e : Error) → eval_bool s f w ≡ (err e, (f w).1) → Evaluated f w

  eval_bool-Evaluated : (f : W → ℕ × W) (w : W) → Evaluated f w
  unfolding eval_bool
  eval_bool-Evaluated f w = elim (redis.sends ℕ f w) [
    | inl e ↦ replied (rw e)
    | inr (x, inl e) ↦ unsent x (rw e)
    | inr (x, inr e) ↦ unheard x (rw e)
  ]

  -- A client that does not own the lock changes nothing by Unlock, and is told so by an error.
  pub unlock_foreign :
      (r : RedisLock) (w : W)
      → s.get r.key w ≢ some r.token
      → ((unlock s r w).1 ≡ w)
        × ((e : Error) × (r' : RedisLock) × ((unlock s r w).0 ≡ ok (some e, r')))
  unfolding unlock
  unlock_foreign r w foreign =
      let same = delete_foreign r.key r.token w foreign in
      elim (eval_bool-Evaluated (lua_check_and_delete s r.key r.token) w) [
        | replied e ↦ rw (e, same) (refl, (_, _, refl))
        | unsent x e ↦ rw e (refl, (_, _, refl))
        | unheard x e ↦ rw (e, same) (refl, (_, _, refl))
      ]

  -- Unlock without an error: the client owned the lock, the key is free now, and every other key is
  -- as it was.
  pub unlock_frees :
      (r : RedisLock) (w : W) {r' : RedisLock}
      → (unlock s r w).0 ≡ ok (none, r')
      → Owns s r w
        × ((j : Bytes) → s.get j (unlock s r w).1 ≡ (if bytes_eq r.key j then none else s.get j w))
  unlock_frees r w h = elim (owner_cases r w) [
    | inl mine ↦
        let same = delete_mine r.key r.token w mine in
        elim (eval_bool-Evaluated (lua_check_and_delete s r.key r.token) w) [
          | replied e ↦
              (mine, λ j. unfold unlock in rw (e, same) ((redis.del_held r.key w mine).1 j))
          | unsent x e ↦ absurd (unfold unlock in ground arith)
          | unheard x e ↦ absurd (unfold unlock in ground arith)
        ]
    | inr foreign ↦ absurd (ground (arith, (unlock_foreign r w foreign).1.2))
  ]

  -- A client that does not own the lock cannot change its time to live.
  pub delay_expire_foreign :
      (r : RedisLock) (n : ℤ) (w : W) → s.get r.key w ≢ some r.token → (delay_expire s r n w).1 ≡ w
  unfolding delay_expire
  delay_expire_foreign r n w foreign =
      let same = expire_foreign r.key r.token n w foreign in
      elim (eval_bool-Evaluated (lua_check_and_expire s r.key r.token n) w) [
        | replied e ↦ rw (e, same)
        | unsent x e ↦ rw e
        | unheard x e ↦ rw (e, same)
      ]

  -- Extending by a positive time never changes who owns a lock, this one or another.
  pub delay_expire_keeps :
      (r : RedisLock) (n : ℤ) (w : W) (j : Bytes)
      → pos 0 <ℤ n
      → s.get j (delay_expire s r n w).1 ≡ s.get j w
  delay_expire_keeps r n w j positive = elim (owner_cases r w) [
    | inl mine ↦
        let same = expire_mine r.key r.token n w mine in
        let kept = (redis.expire_held r.key n w mine positive).1 j in
        elim (eval_bool-Evaluated (lua_check_and_expire s r.key r.token n) w) [
          | replied e ↦
              unfold delay_expire in
              rw (e, same, (redis.expire_held r.key n w mine positive).0) kept
          | unsent x e ↦ unfold delay_expire in rw e
          | unheard x e ↦ unfold delay_expire in rw (e, same) kept
        ]
    | inr foreign ↦ ap (s.get j) (delay_expire_foreign r n w foreign)
  ]
