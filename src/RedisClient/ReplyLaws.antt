-- ===== src/RedisClient/ReplyLaws.antt =====
-- The replies that HMGet, HScan, ZScan and Get of pkg/cache/redis-cli.go convert, by outcome.
use codewave_timer.Base.{
  ℕ, ◌≡◌, ◌≢◌, ◌↔◌, inl, inr, refl, Bool, true, false, if◌then◌else◌, List, [], ◌∷◌, Bytes, Has,
  Option, none, some, Result, ok, panic, spin, Error, arith, bytes_eq, map,
}
use codewave_timer.RedisClient.Conn.{TextMap}
use codewave_timer.RedisClient.Replies.{
  no_texts, all_texts, hm_get_reply, put_text, to_map, hscan_reply,
}
use codewave_timer.RedisClient.Strings.{get_reply}

-- HMGet returns the values if no field is missing.
pub all_texts-some : (vs : List Bytes) → all_texts (map some vs) ≡ ok vs
unfolding all_texts
all_texts-some [] = refl
all_texts-some (v ∷ vs) = ground (arith, all_texts-some vs)

pub all_texts-none : (ret : List (Option Bytes)) → Has none ret → all_texts ret ≡ panic
unfolding all_texts
all_texts-none [] h = elim h [ ]
all_texts-none (none ∷ ret) h = refl
all_texts-none (some v ∷ ret) (inl e) = cc
all_texts-none (some v ∷ ret) (inr h) = rw (all_texts-none ret h)

-- What the loops of HScan and ZScan make of a reply.
abbrev pub flat : List (Bytes × Bytes) → List Bytes
flat [] = []
flat ((k, v) ∷ ps) = k ∷ v ∷ flat ps

abbrev pub put_all : List (Bytes × Bytes) → TextMap → TextMap
put_all [] m = m
put_all ((k, v) ∷ ps) m = put_all ps (put_text k v m)

pub to_map-flat : (ps : List (Bytes × Bytes)) (m : TextMap) → to_map (flat ps) m ≡ ok (put_all ps m)
unfolding to_map
to_map-flat [] m = refl
to_map-flat ((k, v) ∷ ps) m = to_map-flat ps (put_text k v m)

-- The number of texts is odd.
abbrev pub IsOdd : List Bytes → Type 0
IsOdd [] = ⊥
IsOdd (k ∷ []) = Unit
IsOdd (k ∷ v ∷ ret) = IsOdd ret

pub to_map_panics : (ret : List Bytes) (m : TextMap) → (to_map ret m ≡ panic) ↔ IsOdd ret
unfolding to_map
to_map_panics [] m = (λ e. cc, λ o. elim o [ ])
to_map_panics (k ∷ []) m = (λ e. tt, λ o. refl)
to_map_panics (k ∷ v ∷ ret) m = to_map_panics ret (put_text k v m)

pub to_map_returns : (ret : List Bytes) (m : TextMap) → to_map ret m ≢ spin
unfolding to_map
to_map_returns [] m = λ e. cc
to_map_returns (k ∷ []) m = λ e. cc
to_map_returns (k ∷ v ∷ ret) m = to_map_returns ret (put_text k v m)

pub all_texts_returns : (ret : List (Option Bytes)) → all_texts ret ≢ spin
unfolding all_texts
all_texts_returns [] = λ e. cc
all_texts_returns (none ∷ ret) = λ e. cc
all_texts_returns (some v ∷ ret) = ground (arith, all_texts_returns ret)

pub hm_get_reply_returns : (r : List (Option Bytes) × Option Error) → hm_get_reply r ≢ spin
unfolding hm_get_reply
hm_get_reply_returns (ret, none) = ground (arith, all_texts_returns ret)
hm_get_reply_returns (ret, some e) = λ h. cc

pub texts-missing : (ret : List (Option Bytes)) → (all_texts ret ≡ panic) → Has none ret
unfolding all_texts
texts-missing [] e = cc
texts-missing (none ∷ ret) e = inl refl
texts-missing (some v ∷ ret) e = inr (texts-missing ret (ground arith))

pub texts-values :
    (ret : List (Option Bytes)) (vs : List Bytes) → all_texts ret ≡ ok vs → ret ≡ map some vs
unfolding all_texts
texts-values [] vs e = ground arith
texts-values (none ∷ ret) vs e = cc
texts-values (some v ∷ ret) [] e = ground arith
texts-values (some v ∷ ret) (u ∷ vs) e = ground (arith, texts-values ret vs)

-- What HMGet makes of a reply, by its outcome.
abbrev pub HmGetOutcome :
    List (Option Bytes) × Option Error → Result (List Bytes × Option Error) → Type 0
HmGetOutcome r m =
    ((m ≡ panic) ↔ ((r.1 ≡ none) × Has none r.0))
    × ((vs : List Bytes) → (m ≡ ok (vs, none)) ↔ ((r.1 ≡ none) × (r.0 ≡ map some vs)))
    × ((e : Error) → (m ≡ ok ([], some e)) ↔ (r.1 ≡ some e))

pub hm_get_reply_outcome :
    (r : List (Option Bytes) × Option Error) → HmGetOutcome r (hm_get_reply r)
unfolding hm_get_reply
hm_get_reply_outcome (ret, none) = (
  (λ h. (refl, texts-missing ret (ground arith)), λ h. rw (all_texts-none ret h.1)),
  λ vs. (λ h. (refl, texts-values ret vs (ground arith)), λ h. rw (h.1, all_texts-some vs)),
  λ e. (λ h. ground arith, λ h. cc),
)
hm_get_reply_outcome (ret, some e) = (
  (λ h. cc, λ h. cc),
  λ vs. (λ h. ground arith, λ h. cc),
  λ f. (λ h. ground arith, λ h. ground arith),
)

-- The last value that a list of pairs gives to a key.
abbrev pub last_value : Bytes → List (Bytes × Bytes) → Option Bytes → Option Bytes
last_value j [] old = old
last_value j ((k, v) ∷ ps) old = last_value j ps (if bytes_eq k j then some v else old)

pub put_all-last :
    (ps : List (Bytes × Bytes)) (m : TextMap) (j : Bytes) → put_all ps m j ≡ last_value j ps (m j)
put_all-last [] m j = refl
put_all-last ((k, v) ∷ ps) m j = put_all-last ps (put_text k v m) j

pub hscan_reply_returns : (r : (List Bytes × ℕ) × Option Error) → hscan_reply r ≢ spin
unfolding hscan_reply
hscan_reply_returns ((ret, cursor), none) = ground (arith, to_map_returns ret no_texts)
hscan_reply_returns ((ret, cursor), some e) = λ h. cc

pub hscan_reply_panics :
    (r : (List Bytes × ℕ) × Option Error) → (hscan_reply r ≡ panic) ↔ ((r.1 ≡ none) × IsOdd r.0.0)
unfolding hscan_reply
hscan_reply_panics ((ret, next), none) = (
  λ h. (refl, (to_map_panics ret no_texts).0 (ground arith)),
  λ h. rw ((to_map_panics ret no_texts).1 h.1),
)
hscan_reply_panics ((ret, next), some e) = (λ h. cc, λ h. cc)

-- What Get makes of a reply: a text that is there, a key that is not, or an error.
abbrev pub GetOutcome :
    (Error → Bool) → Bytes × Option Error → (Bytes × Bool) × Option Error → Type 0
GetOutcome is_nil r g =
    ((v : Bytes) → (g ≡ ((v, true), none)) ↔ (r ≡ (v, none)))
    × ((g ≡ (([], false), none)) ↔ ((e : Error) × (r.1 ≡ some e) × (is_nil e ≡ true)))
    × ((e : Error) → (g ≡ (([], false), some e)) ↔ ((r.1 ≡ some e) × (is_nil e ≡ false)))

pub get_reply_outcome :
    (is_nil : Error → Bool) (r : Bytes × Option Error) → GetOutcome is_nil r (get_reply is_nil r)
get_reply_outcome is_nil (ret, none) = (
  λ v. (λ h. ground arith, λ h. ground arith),
  (λ h. ground arith, λ h. ground arith),
  λ e. (λ h. ground arith, λ h. ground arith),
)
get_reply_outcome is_nil (ret, some f) = (
  λ v. (λ h. ground arith, λ h. ground arith),
  (λ h. (f, refl, ground arith), λ h. ground arith),
  λ e. (λ h. ground arith, λ h. ground arith),
)
