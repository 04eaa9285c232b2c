-- ===== src/Tests/Router.antt =====
-- A router that looks its routes through.
use codewave_timer.Base.{
  ◌≡◌, ◌≢◌, refl, ap, ◌⊎◌, inl, inr, arith, List, [], ◌∷◌, Has, Bytes, bytes_eq, bytes_eq_refl,
  bytes_eq→eq, Bool-cases, Option, none, some, ◌&&◌, if◌then◌else◌,
}
use codewave_timer.GoLib.Path.{clean}
use codewave_timer.Handlers.{Handler}
use codewave_timer.Routes.{Route}
use codewave_timer.Routes.Dispatch.{IsRouter}

module _ {W : Type 0} where
  look : List (Route W) → Bytes → Bytes → Option (Handler W)
  look [] method path = none
  look (r ∷ rs) method path =
      let rest = look rs method path in
      if bytes_eq r.method method && bytes_eq r.path path then some r.handler else rest

  pub find : List (Route W) → Bytes → Bytes → Option (Handler W)
  find rs method path = look rs method (clean path)

  look-found :
      (rs : List (Route W)) (r : Route W)
      → Has r rs
      → ((s : Route W) → Has s rs → s.method ≡ r.method → s.path ≡ r.path → s ≡ r)
      → look rs r.method r.path ≡ some r.handler
  unfolding look
  look-found [] r h only = elim h [ ]
  look-found (t ∷ ts) r (inl e) only =
      rw (← e) (rw (bytes_eq_refl r.method, bytes_eq_refl r.path) refl)
  look-found (t ∷ ts) r (inr h) only =
      elim (Bool-cases (bytes_eq t.method r.method && bytes_eq t.path r.path)) [
        | inl same ↦ rw same (
            ap (λ (s : Route W). some s.handler)
              (only t (inl refl) (bytes_eq→eq t.method r.method (ground arith))
                (bytes_eq→eq t.path r.path (ground arith))))
        | inr other ↦ rw other (look-found ts r h (λ s o. only s (inr o)))
      ]

  look-missing :
      (rs : List (Route W)) (method path : Bytes)
      → ((s : Route W) → Has s rs → (s.method ≢ method) ⊎ (s.path ≢ path))
      → look rs method path ≡ none
  unfolding look
  look-missing [] method path none_fits = refl
  look-missing (t ∷ ts) method path none_fits =
      elim (Bool-cases (bytes_eq t.method method && bytes_eq t.path path)) [
        | inl same ↦ elim (none_fits t (inl refl)) [
          | inl m ↦ absurd (m (bytes_eq→eq t.method method (ground arith)))
          | inr p ↦ absurd (p (bytes_eq→eq t.path path (ground arith)))
        ]
        | inr other ↦ rw other (look-missing ts method path (λ s o. none_fits s (inr o)))
      ]

  pub find-IsRouter : IsRouter find
  unfolding find
  find-IsRouter = record {
    found = λ rs r path plain o only same. rw same (look-found rs r o only);
    missing = λ rs method path plain none_fits. look-missing rs method (clean path) none_fits;
  }
