-- ===== src/Cron/Nexts.antt =====
-- What NextsBetween returns.
use codewave_timer.Base.{
  ℕ, zero, suc, ◌-◌, ◌<◌, ◌≤◌, ◌≡◌, ◌≢◌, refl, false, List, [], ◌∷◌, ◌++◌, append_assoc, append-nil,
  Bytes, ltb, arith, ◌↔◌, ◌⊎◌, inl, inr, ◌∙◌, ok, spin, Bool-cases,
}
use native.Mathlib.Decide.{dec_lt}
use codewave_timer.GoLib.Clock.{Time, unix_nano_negative}
use codewave_timer.Cron.{
  CronLibrary, ParseResult, IsCron, nexts_loop, nexts_between, parsed, refused,
}

abbrev pub Occurs : Time → List Time → Type 0
Occurs u [] = ⊥
Occurs u (t ∷ ts) = (u ≡ t) ⊎ Occurs u ts

-- The last time of a list that starts with `t`.
abbrev pub last : Time → List Time → Time
last t [] = t
last t (u ∷ us) = last u us

last-Occurs : (t : Time) (ts : List Time) → Occurs (last t ts) (t ∷ ts)
last-Occurs t [] = inl refl
last-Occurs t (u ∷ us) = inr (last-Occurs u us)

module _ (c : CronLibrary) where
  open c use {Expr, parse, next}

  -- `ts` are the successive firing times after `start`, up to the first one that is not before `end`.
  abbrev pub Chain : Expr → Time → Time → List Time → Type 0
  Chain expr start end [] = end ≤ start
  Chain expr start end (t ∷ ts) =
      (start < end) × (t ≡ next expr start) × (unix_nano_negative t ≡ false) × Chain expr t end ts

  nexts_loop-Chain :
      (f : ℕ) (expr : Expr) (end start : Time) (acc ts : List Time)
      → nexts_loop c f expr end start acc ≡ ok ts
      → (us : List Time) × (ts ≡ acc ++ us) × Chain expr start end us
  unfolding nexts_loop
  nexts_loop-Chain zero expr end start acc ts h = cc
  nexts_loop-Chain (suc f) expr end start acc ts h = elim (Bool-cases (ltb start end)) [
    | inr done ↦ ([], ground (arith, append-nil acc), ground arith)
    | inl more ↦ elim (Bool-cases (unix_nano_negative (next expr start))) [
      | inl bad ↦ absurd (ground arith)
      | inr good ↦
          let (us, e, ch) =
            nexts_loop-Chain f expr end (next expr start) (acc ++ next expr start ∷ []) ts
              (rw (more, good) at h) in
          (
            next expr start ∷ us,
            e ∙ append_assoc acc (next expr start ∷ []) us,
            (ground arith, refl, good, ch),
          )
    ]
  ]

  -- What an accepted call returns are the successive firing times.
  pub nexts_between-Chain :
      (cron : Bytes) (start end : Time) (expr : Expr) (ts : List Time)
      → parse cron ≡ parsed expr
      → nexts_between c cron start end ≡ ok ts
      → Chain expr start end ts
  unfolding nexts_between
  nexts_between-Chain cron start end expr ts p h =
      let (us, e, ch) = nexts_loop-Chain (suc (end - start)) expr end start [] ts (ground arith) in
      rw e ch

  pub parse_cases :
      (cron : Bytes)
      → ((expr : Expr) × (parse cron ≡ parsed expr)) ⊎ ((n : ℕ) × (parse cron ≡ refused n))
  parse_cases cron = cases (parse cron) refl
    where
      cases :
          (r : ParseResult Expr)
          → parse cron ≡ r
          → ((expr : Expr) × (parse cron ≡ parsed expr)) ⊎ ((n : ℕ) × (parse cron ≡ refused n))
      cases (parsed expr) e = inl (expr, e)
      cases (refused n) e = inr (n, e)

  Chain-last :
      (expr : Expr) (start end : Time) (ts : List Time)
      → Chain expr start end ts
      → end ≤ last start ts
  Chain-last expr start end [] h = h
  Chain-last expr start end (t ∷ ts) h = Chain-last expr t end ts h.3

  Chain-overshoots :
      (expr : Expr) (start end : Time) (ts : List Time)
      → start < end
      → Chain expr start end ts
      → (end ≤ last start ts) × Occurs (last start ts) ts
  Chain-overshoots expr start end [] lt h = absurd (omega arith)
  Chain-overshoots expr start end (t ∷ ts) lt h =
      (Chain-last expr start end (t ∷ ts) h, last-Occurs t ts)

  -- Despite its name and its argument `end`, the function returns a time that is not before `end`
  -- whenever `start` is before `end` and it returns at all: the last one.
  pub nexts_between_overshoots :
      (cron : Bytes) (start end : Time) (expr : Expr) (ts : List Time)
      → parse cron ≡ parsed expr
      → start < end
      → nexts_between c cron start end ≡ ok ts
      → (end ≤ last start ts) × Occurs (last start ts) ts
  nexts_between_overshoots cron start end expr ts p lt h =
      Chain-overshoots expr start end ts lt (nexts_between-Chain cron start end expr ts p h)

  module _ (laws : IsCron c) where
    open laws use {Fires, later, fires, first}

    -- One link of a chain.
    link_valid :
        (expr : Expr) (start t : Time)
        → t ≡ next expr start
        → unix_nano_negative t ≡ false
        → unix_nano_negative (next expr start) ≡ false
    link_valid expr start t e valid = rw e at valid

    pub link_later :
        (expr : Expr) (start t : Time)
        → t ≡ next expr start
        → unix_nano_negative t ≡ false
        → start < t
    link_later expr start t e valid = rw e (later expr start (link_valid expr start t e valid))

    link_fires :
        (expr : Expr) (start t : Time)
        → t ≡ next expr start
        → unix_nano_negative t ≡ false
        → Fires expr t
    link_fires expr start t e valid = rw e (fires expr start (link_valid expr start t e valid))

    link_first :
        (expr : Expr) (start t u : Time)
        → t ≡ next expr start
        → unix_nano_negative t ≡ false
        → Fires expr u
        → start < u
        → t ≤ u
    link_first expr start t u e valid f low =
        rw e (first expr start u (link_valid expr start t e valid) f low)

    nexts_loop_total :
        (f : ℕ) (expr : Expr) (end start : Time) (acc : List Time)
        → end - start < f
        → nexts_loop c f expr end start acc ≢ spin
    unfolding nexts_loop
    nexts_loop_total zero expr end start acc h = absurd (omega arith)
    nexts_loop_total (suc f) expr end start acc h = ground (
      arith,
      later expr start,
      nexts_loop_total f expr end (next expr start) (acc ++ next expr start ∷ []),
    )

    -- The loop ends within its fuel for every expression, start and end, over a library whose firing
    -- times are later than their argument.
    pub nexts_between_total :
        (cron : Bytes) (start end : Time) → nexts_between c cron start end ≢ spin
    unfolding nexts_between
    nexts_between_total cron start end = elim (parse_cases cron) [
      | inl (expr, e) ↦
          ground (arith, nexts_loop_total (suc (end - start)) expr end start [] (omega arith))
      | inr (n, e) ↦ ground arith
    ]

    pub Chain-fires :
        (expr : Expr) (start end u : Time) (ts : List Time)
        → Chain expr start end ts
        → Occurs u ts
        → Fires expr u × (start < u)
    Chain-fires expr start end u [] h o = elim o [ ]
    Chain-fires expr start end u (t ∷ ts) h (inl e) =
        rw e (link_fires expr start t h.1 h.2, link_later expr start t h.1 h.2)
    Chain-fires expr start end u (t ∷ ts) h (inr o) =
        let (f, low) = Chain-fires expr t end u ts h.3 o in
        (f, omega (arith, link_later expr start t h.1 h.2))

    pub Chain-Occurs :
        (expr : Expr) (start end u : Time) (ts : List Time)
        → Chain expr start end ts
        → Fires expr u
        → start < u
        → u < end
        → Occurs u ts
    Chain-Occurs expr start end u [] h f low high = absurd (omega arith)
    Chain-Occurs expr start end u (t ∷ ts) h f low high = elim (dec_lt t u) [
      | yes after ↦ inr (Chain-Occurs expr t end u ts h.3 f after high)
      | no before ↦ inl (omega (arith, link_first expr start t u h.1 h.2 f low))
    ]

    -- If the call succeeds, then before `end` its result holds exactly the firing times after `start`.
    pub nexts_between_iff :
        (cron : Bytes) (start end : Time) (expr : Expr) (ts : List Time)
        → parse cron ≡ parsed expr
        → nexts_between c cron start end ≡ ok ts
        → (u : Time) → u < end
        → Occurs u ts ↔ (Fires expr u × (start < u))
    nexts_between_iff cron start end expr ts p h u high =
        let ch : Chain expr start end ts = nexts_between-Chain cron start end expr ts p h in
        (Chain-fires expr start end u ts ch, λ f. Chain-Occurs expr start end u ts ch f.0 f.1 high)
