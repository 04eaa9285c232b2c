-- ===== src/Routes/Dispatch.antt =====
-- Which handler a request reaches: internal/handler/routes.go.
use codewave_timer.Base.{
  ◌==◌, ◌||◌, Bool, ◌≡◌, ◌≢◌, refl, subst, sym, ap, ◌∙◌, inl, inr, List, [], ◌∷◌, Has, Bytes,
  bytes_eq, bytes_eq_refl, false, true, bytes_eq→eq, Bool-cases, if◌then◌else◌, codes, Option, none,
  some, ◌⊎◌,
}
use codewave_timer.GoLib.Path.{is_rooted, clean}
use codewave_timer.Handlers.{
  Handler, create_timer_handler, enable_timer_handler, disable_timer_handler,
}
use codewave_timer.Routes.{
  Route, Server, method_post, Endpoints, create_route, enable_route, disable_route, callback_route,
  callback_handler, register_handlers, add_routes,
}

abbrev has_colon : Bytes → Bool
has_colon [] = false
has_colon (c ∷ s) = let rest = has_colon s in (c == b':') || rest

-- A path of a route that begins at the root, is clean, and has no parameter.
abbrev pub IsPlain : Bytes → Type 0
IsPlain path = (is_rooted path ≡ true) × (clean path ≡ path) × (has_colon path ≡ false)

-- The documented behaviour of go-zero's router on routes with plain paths: it cleans the path of a
-- request, and the request reaches the handler of the only route with its method and the cleaned path,
-- and none if there is no such route.
pub record IsRouter {W : Type 0} (find : List (Route W) → Bytes → Bytes → Option (Handler W))
    : Type 0 where
  pub found :
      (routes : List (Route W)) (r : Route W) (path : Bytes)
      → ((s : Route W) → Has s routes → IsPlain s.path)
      → Has r routes
      → ((s : Route W) → Has s routes → s.method ≡ r.method → s.path ≡ r.path → s ≡ r)
      → clean path ≡ r.path
      → find routes r.method path ≡ some r.handler
  pub missing :
      (routes : List (Route W)) (method path : Bytes)
      → ((s : Route W) → Has s routes → IsPlain s.path)
      → ((s : Route W) → Has s routes → (s.method ≢ method) ⊎ (s.path ≢ clean path))
      → find routes method path ≡ none

differ : (s t : Bytes) → bytes_eq s t ≡ false → s ≢ t
differ s t h e = cc (ap (bytes_eq s) e, bytes_eq_refl s, h)

module _ {W : Type 0} where
  -- The path of a route is not that of any of these, and the paths of routes differ.
  abbrev Apart : Route W → List (Route W) → Type 0
  Apart r [] = Unit
  Apart r (s ∷ ss) = (r.path ≢ s.path) × Apart r ss

  abbrev AreDistinct : List (Route W) → Type 0
  AreDistinct [] = Unit
  AreDistinct (r ∷ rs) = Apart r rs × AreDistinct rs

  Apart-Has : (r s : Route W) (rs : List (Route W)) → Apart r rs → Has s rs → r.path ≢ s.path
  Apart-Has r s [] h o = elim o [ ]
  Apart-Has r s (t ∷ ts) h (inl e) = rw e h.0
  Apart-Has r s (t ∷ ts) h (inr o) = Apart-Has r s ts h.1 o

  only_one :
      (rs : List (Route W)) (r s : Route W)
      → AreDistinct rs
      → Has r rs
      → Has s rs
      → s.path ≡ r.path
      → s ≡ r
  only_one [] r s h o o' e = elim o [ ]
  only_one (t ∷ ts) r s h (inl i) (inl j) e = j ∙ sym i
  only_one (t ∷ ts) r s h (inl i) (inr j) e =
      absurd (Apart-Has t s ts h.0 j (ap (λ (x : Route W). x.path) (sym i) ∙ sym e))
  only_one (t ∷ ts) r s h (inr i) (inl j) e =
      absurd (Apart-Has t r ts h.0 i (ap (λ (x : Route W). x.path) (sym j) ∙ e))
  only_one (t ∷ ts) r s h (inr i) (inr j) e = only_one ts r s h.1 i j e

module _ {W : Type 0} (x : Endpoints W) where
  abbrev four : List (Route W)
  four = create_route x ∷ enable_route x ∷ disable_route x ∷ callback_route x ∷ []

  four-AreDistinct : AreDistinct four
  unfolding create_route enable_route disable_route callback_route
  four-AreDistinct = (
    (differ _ _ refl, (differ _ _ refl, (differ _ _ refl, tt))),
    ((differ _ _ refl, (differ _ _ refl, tt)), ((differ _ _ refl, tt), (tt, tt))),
  )

  registered : (server : Server W) → server.routes ≡ [] → (register_handlers x server).routes ≡ four
  unfolding register_handlers add_routes
  registered server fresh = rw fresh refl

  -- The paths of the four routes.
  abbrev pub IsPath : Bytes → Type 0
  IsPath path =
      (path ≡ codes "/api/timer/create")
      ⊎ (path ≡ codes "/api/timer/enable")
      ⊎ (path ≡ codes "/api/timer/disable")
      ⊎ (path ≡ codes "/codewavetimer/callback")

  -- The handler for a path, and for a method and a path.
  abbrev of_path : Bytes → Option (Handler W)
  of_path path =
      if bytes_eq path (codes "/api/timer/create")
      then some (create_timer_handler x.httpx x.parse_create x.new_trace x.create)
      else if bytes_eq path (codes "/api/timer/enable")
      then some (enable_timer_handler x.httpx x.parse_timer x.enable)
      else if bytes_eq path (codes "/api/timer/disable")
      then some (disable_timer_handler x.httpx x.parse_timer x.disable)
      else if bytes_eq path (codes "/codewavetimer/callback")
      then some (callback_handler x)
      else none

  abbrev pub chosen : Bytes → Bytes → Option (Handler W)
  chosen method path = if bytes_eq method method_post then of_path path else none

  post_only : (s : Route W) → Has s four → (s.method ≡ method_post) × IsPath s.path
  unfolding create_route enable_route disable_route callback_route
  post_only s (inl e) = (ap (λ (r : Route W). r.method) e, inl (ap (λ (r : Route W). r.path) e))
  post_only s (inr (inl e)) =
      (ap (λ (r : Route W). r.method) e, inr (inl (ap (λ (r : Route W). r.path) e)))
  post_only s (inr (inr (inl e))) =
      (ap (λ (r : Route W). r.method) e, inr (inr (inl (ap (λ (r : Route W). r.path) e))))
  post_only s (inr (inr (inr (inl e)))) =
      (ap (λ (r : Route W). r.method) e, inr (inr (inr (ap (λ (r : Route W). r.path) e))))
  post_only s (inr (inr (inr (inr o)))) = elim o [ ]

  four-IsPlain : (s : Route W) → Has s four → IsPlain s.path
  unfolding create_route enable_route disable_route callback_route clean is_rooted
  four-IsPlain s (inl e) = rw e (refl, refl, refl)
  four-IsPlain s (inr (inl e)) = rw e (refl, refl, refl)
  four-IsPlain s (inr (inr (inl e))) = rw e (refl, refl, refl)
  four-IsPlain s (inr (inr (inr (inl e)))) = rw e (refl, refl, refl)
  four-IsPlain s (inr (inr (inr (inr o)))) = elim o [ ]

  module _ (find : List (Route W) → Bytes → Bytes → Option (Handler W)) (router : IsRouter find)
      (server : Server W) (fresh : server.routes ≡ []) where
    abbrev table : List (Route W)
    table = (register_handlers x server).routes

    other :
        (method path : Bytes)
        → (method ≢ method_post) ⊎ ¬ (IsPath (clean path))
        → find table method path ≡ none
    other method path h = rw (registered server fresh) (
        router.missing four method path four-IsPlain (λ s o.
          let (posts, listed) = post_only s o in
          elim h [
            | inl m ↦ inl (λ e. m (sym e ∙ posts))
            | inr p ↦ inr (λ e. p (subst IsPath e listed))
          ]))

    at :
        (r : Route W)
        → Has r four
        → (method path : Bytes) → bytes_eq method r.method ≡ true
        → bytes_eq (clean path) r.path ≡ true
        → find table method path ≡ some r.handler
    at r h method path same_method same_path =
        rw (bytes_eq→eq method r.method same_method, registered server fresh)
          (router.found four r path four-IsPlain h
            (λ s o m p. only_one four r s four-AreDistinct h o p)
            (bytes_eq→eq (clean path) r.path same_path))

    not_listed :
        (path : Bytes)
        → bytes_eq path (codes "/api/timer/create") ≡ false
        → bytes_eq path (codes "/api/timer/enable") ≡ false
        → bytes_eq path (codes "/api/timer/disable") ≡ false
        → bytes_eq path (codes "/codewavetimer/callback") ≡ false
        → ¬ (IsPath path)
    not_listed path c e d b (inl h) = differ path _ c h
    not_listed path c e d b (inr (inl h)) = differ path _ e h
    not_listed path c e d b (inr (inr (inl h))) = differ path _ d h
    not_listed path c e d b (inr (inr (inr h))) = differ path _ b h

    chosen_path :
        (method path : Bytes)
        → bytes_eq method method_post ≡ true
        → find table method path ≡ of_path (clean path)
    unfolding create_route enable_route disable_route callback_route
    chosen_path method path post =
        elim (Bool-cases (bytes_eq (clean path) (codes "/api/timer/create"))) [
          | inl c ↦ rw c (at (create_route x) (inl refl) method path post c)
          | inr c ↦ elim (Bool-cases (bytes_eq (clean path) (codes "/api/timer/enable"))) [
            | inl e ↦ rw (c, e) (at (enable_route x) (inr (inl refl)) method path post e)
            | inr e ↦ elim (Bool-cases (bytes_eq (clean path) (codes "/api/timer/disable"))) [
              | inl d ↦
                  rw (c, e, d) (at (disable_route x) (inr (inr (inl refl))) method path post d)
              | inr d ↦
                  elim (Bool-cases (bytes_eq (clean path) (codes "/codewavetimer/callback"))) [
                    | inl b ↦
                        rw (c, e, d, b)
                          (at (callback_route x) (inr (inr (inr (inl refl)))) method path post b)
                    | inr b ↦
                        rw (c, e, d, b) (other method path (inr (not_listed (clean path) c e d b)))
                  ]
            ]
          ]
        ]

    -- On a new server, over a router that behaves as documented for routes whose paths have no
    -- parameters, a POST whose cleaned path is one of the four reaches the handler of that path over
    -- what it needs, and a request with another method or another cleaned path reaches none.
    pub register_handlers-dispatch :
        (method path : Bytes) → find table method path ≡ chosen method (clean path)
    register_handlers-dispatch method path = elim (Bool-cases (bytes_eq method method_post)) [
      | inl post ↦ rw post (chosen_path method path post)
      | inr other_method ↦
          rw other_method (other method path (inl (differ method method_post other_method)))
    ]
