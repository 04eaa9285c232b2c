-- ===== src/Exec.antt =====
-- Code with effects: it changes the world outside (database, redis, clock) and may fail. What was
-- changed before a failure stays changed.
use native.Mathlib.Omega.{arith}
use codewave_timer.Base.{◌≡◌, refl, ◌⊎◌, inl, inr, Result, ok, err, panic, spin, Error}

abbrev pub Exec : Type 0 → Type 0 → Type 0
Exec W A = W → Result A × W

-- `a, err := m()`, for code that goes on after an error.
abbrev pub outcome : {A : Type 0} → Result A → Result (A ⊎ Error)
outcome (ok a) = ok (inl a)
outcome (err e) = ok (inr e)
outcome panic = panic
outcome spin = spin

-- What a function returns whose deferred call ends in `r`.
abbrev pub after : {A : Type 0} → Result A → Result (Unit {0}) → Result A
after a (ok u) = a
after a (err e) = a
after a panic = panic
after a spin = spin

module _ {W A : Type 0} where
  abbrev pub pure : A → Exec W A
  pure a w = (ok a, w)

  abbrev pub raise : Error → Exec W A
  raise e w = (err e, w)

  abbrev pub lift : Result A → Exec W A
  lift r w = (r, w)

  abbrev pub attempt : Exec W A → Exec W (A ⊎ Error)
  attempt m w = let (r, w') = m w in (outcome r, w')

  abbrev cleaned : Result A → W → Exec W (Unit {0}) → Result A × W
  cleaned spin w cleanup = (spin, w)
  cleaned a w cleanup = let (r, w') = cleanup w in (after a r, w')

  -- `defer cleanup()`: also after a failure or a panic; a panic of its own prevails.
  abbrev pub deferred : Exec W (Unit {0}) → Exec W A → Exec W A
  deferred cleanup m w = let (r, w') = m w in cleaned r w' cleanup

-- The result of a function whose deferred call recovers from a panic.
abbrev no_panic : Result (Unit {0}) → Result (Unit {0})
no_panic (ok u) = ok u
no_panic (err e) = err e
no_panic panic = ok tt
no_panic spin = spin

abbrev pub recovered : {W : Type 0} → Exec W (Unit {0}) → Exec W (Unit {0})
recovered m w = let (r, w') = m w in (no_panic r, w')

module _ {W A B : Type 0} where
  abbrev continue : Result A → (A → Exec W B) → Exec W B
  continue (ok a) f w = f a w
  continue (err e) f w = (err e, w)
  continue panic f w = (panic, w)
  continue spin f w = (spin, w)

  infixl 5 ◌>>=◌ ◌>>◌
  abbrev pub ◌>>=◌ : Exec W A → (A → Exec W B) → Exec W B
  ◌>>=◌ m f w = let (r, w') = m w in continue r f w'

  abbrev pub ◌>>◌ : Exec W A → Exec W B → Exec W B
  m >> n = m >>= λ _. n

  continue-eq-ok :
      (p : Result A × W) (f : A → Exec W B) {b : B}
      → (continue p.0 f p.1).0 ≡ ok b
      → (a : A) × (p.0 ≡ ok a) × ((f a p.1).0 ≡ ok b) × (continue p.0 f p.1 ≡ f a p.1)
  continue-eq-ok (ok a, w) f h = (a, refl, h, refl)
  continue-eq-ok (err e, w) f h = absurd (ground arith)
  continue-eq-ok (panic, w) f h = absurd (ground arith)
  continue-eq-ok (spin, w) f h = absurd (ground arith)

  -- Inversion of a successful bind.
  pub >>=-eq-ok :
      (m : Exec W A) (f : A → Exec W B) (w : W) {b : B}
      → ((m >>= f) w).0 ≡ ok b
      → (a : A) × ((m w).0 ≡ ok a) × ((f a (m w).1).0 ≡ ok b) × ((m >>= f) w ≡ f a (m w).1)
  >>=-eq-ok m f w h = continue-eq-ok (m w) f h

abbrev pub IsFailed : {A : Type 0} → Result A → Type 0
IsFailed (ok a) = ⊥
IsFailed r = Unit

-- What holds after a call that has succeeded and what follows, and after one that has not.
pub bind_either :
    {W A B : Type 0} (Q : Result B × W → Type 0) (m : Exec W A) (f : A → Exec W B) (w : W)
    → ((a : A) → (m w).0 ≡ ok a → Q (f a (m w).1))
    → ((r : Result B) → IsFailed r → Q (r, (m w).1))
    → Q ((m >>= f) w)
bind_either {W} {A} {B} Q m f w fine failed = next (m w) fine failed
  where
    next :
        (p : Result A × W)
        → ((a : A) → p.0 ≡ ok a → Q (f a p.1))
        → ((r : Result B) → IsFailed r → Q (r, p.1))
        → Q (((λ (v : W). p) >>= f) w)
    next (ok a, w') fine failed = fine a refl
    next (err e, w') fine failed = failed (err e) tt
    next (panic, w') fine failed = failed panic tt
    next (spin, w') fine failed = failed spin tt
