-- ===== src/Lock/Mutex.antt =====
-- Many clients of one lock, interleaved in any order: at most one of them holds it.
use codewave_timer.Base.{
  ℕ, ◌≡◌, sym, ap, subst, ◌∙◌, arith, Bool, true, false, Bytes, some, ◌==◌, ==_iff, if◌then◌else◌,
  ℤ, pos, ◌<ℤ◌, ok, err, Error, Bool-cases, inl, inr,
}
use codewave_timer.Redis.{RedisServer, IsRedis}
use codewave_timer.Lock.Options.{RedisLock}
use codewave_timer.Lock.Client.{try_lock, delay_expire, unlock}
use codewave_timer.Lock.Owner.{Owns, try_lock-Owns, try_lock_held}
use codewave_timer.Lock.Release.{unlock_foreign, delay_expire_keeps}

abbrev pub mark : (ℕ → Bool) → ℕ → Bool → ℕ → Bool
mark holds i b j = if i == j then b else holds j

-- The world, and the clients whose attempt has succeeded and that have not released since.
pub record System (W : Type 0) : Type 0 where
  pub world : W
  pub holds : ℕ → Bool

module _ {W : Type 0} (s : RedisServer W) (client : ℕ → RedisLock) where
  -- The value of the key disappears only when nobody holds the lock: the time to live is longer than
  -- the work of a holder, or is extended by its watchdog.
  pub data Step (σ : System W) : System W → Type 0 where
    wins :
        (i : ℕ)
        → (try_lock s (client i) σ.world).0 ≡ ok tt
        → Step σ (record { world = (try_lock s (client i) σ.world).1; holds = mark σ.holds i true })
    loses :
        (i : ℕ) (e : Error)
        → (try_lock s (client i) σ.world).0 ≡ err e
        → Step σ (record { world = (try_lock s (client i) σ.world).1; holds = σ.holds })
    releases :
        (i : ℕ)
        → Step σ (record { world = (unlock s (client i) σ.world).1; holds = mark σ.holds i false })
    extends :
        (i : ℕ) (n : ℤ)
        → pos 0 <ℤ n
        → Step σ (record { world = (delay_expire s (client i) n σ.world).1; holds = σ.holds })
    lapses :
        (w : W) → ((i : ℕ) → σ.holds i ≡ false) → Step σ (record { world = w; holds = σ.holds })

  pub data Reach (w : W) : System W → Type 0 where
    start : Reach w (record { world = w; holds = λ i. false })
    later : {σ τ : System W} → Reach w σ → Step σ τ → Reach w τ

  abbrev pub IsOwned : System W → Type 0
  IsOwned σ = (i : ℕ) → σ.holds i ≡ true → Owns s (client i) σ.world

  module _ (redis : IsRedis s) (k : Bytes) (one_key : (i : ℕ) → (client i).key ≡ k)
      (distinct : (i j : ℕ) → (client i).token ≡ (client j).token → i ≡ j) where
    same_key : (i j : ℕ) → (client i).key ≡ (client j).key
    same_key i j = one_key i ∙ sym (one_key j)

    -- The value of the key, as any client reads it.
    key_value :
        {w : W} (i j : ℕ) → Owns s (client j) w → s.get (client i).key w ≡ some (client j).token
    key_value {w} i j owns = ap (λ (x : Bytes). s.get x w) (same_key i j) ∙ owns

    -- One client's operation on the lock of another changes nothing.
    wins_keeps :
        (σ : System W) (i j : ℕ)
        → (try_lock s (client i) σ.world).0 ≡ ok tt
        → (σ.holds j ≡ true → Owns s (client j) σ.world)
        → mark σ.holds i true j ≡ true
        → Owns s (client j) (try_lock s (client i) σ.world).1
    wins_keeps σ i j h owns held = elim (Bool-cases (i == j)) [
      | inl same ↦
          subst (λ (x : ℕ). Owns s (client x) (try_lock s (client i) σ.world).1)
            ((==_iff i j).0 same) (try_lock-Owns s redis (client i) σ.world h).1
      | inr other ↦ absurd (
          cc (
            key_value i j (owns (rw other at held)),
            (try_lock-Owns s redis (client i) σ.world h).0,
          ))
    ]

    releases_keeps :
        (σ : System W) (i j : ℕ)
        → (σ.holds j ≡ true → Owns s (client j) σ.world)
        → mark σ.holds i false j ≡ true
        → Owns s (client j) (unlock s (client i) σ.world).1
    releases_keeps σ i j owns held = elim (Bool-cases (i == j)) [
      | inl same ↦ absurd (cc (rw same at held))
      | inr other ↦
          let mine : Owns s (client j) σ.world = owns (rw other at held) in
          ap (s.get (client j).key)
            (unlock_foreign s redis (client i) σ.world
              (λ e. ground (arith, key_value i j mine, distinct i j))).0
          ∙ mine
    ]

    Step-IsOwned : {σ τ : System W} → Step σ τ → IsOwned σ → IsOwned τ
    Step-IsOwned {σ} (wins i h) inv j held = wins_keeps σ i j h (inv j) held
    Step-IsOwned {σ} (loses i e h) inv j held =
        ap (s.get (client j).key)
          (try_lock_held s redis (client i) σ.world (client j).token (key_value i j (inv j held))).0
        ∙ inv j held
    Step-IsOwned {σ} (releases i) inv j held = releases_keeps σ i j (inv j) held
    Step-IsOwned {σ} (extends i n positive) inv j held =
        delay_expire_keeps s redis (client i) n σ.world (client j).key positive ∙ inv j held
    Step-IsOwned (lapses w idle) inv j held = absurd (ground (arith, idle j))

    Reach-IsOwned : {w : W} {σ : System W} → Reach w σ → IsOwned σ
    Reach-IsOwned start = λ j held. cc
    Reach-IsOwned (later r st) = Step-IsOwned st (Reach-IsOwned r)

    -- In every state that any number of clients of one key, each with a token of its own, can reach by
    -- winning, losing, extending and releasing the lock in any order, at most one of them holds it. The
    -- key is lost without a release only while nobody holds the lock.
    pub mutual_exclusion :
        {w : W} {σ : System W} → Reach w σ → (i j : ℕ) → σ.holds i ≡ true → σ.holds j ≡ true → i ≡ j
    mutual_exclusion r i j hi hj =
        distinct i j (cc (key_value i j (Reach-IsOwned r j hj), Reach-IsOwned r i hi))
