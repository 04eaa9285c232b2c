-- ===== src/RedisClient/Converted.antt =====
-- The methods of pkg/cache/redis-cli.go that read more out of a reply: Get, HMGet, HScan, ZScan,
-- and Exists and Expire, which have no error to return.
use codewave_timer.Base.{
  ℕ, ◌≡◌, ◌↔◌, refl, ◌∙◌, Bool, true, List, Bytes, Option, none, ok, panic, Error, ℤ,
}
use codewave_timer.RedisClient.Conn.{RedisState, TextMap}
use codewave_timer.RedisClient.ReplyLaws.{
  flat, put_all, to_map-flat, IsOdd, hm_get_reply_returns, HmGetOutcome, hm_get_reply_outcome,
  last_value, put_all-last, hscan_reply_returns, hscan_reply_panics, GetOutcome, get_reply_outcome,
}
use codewave_timer.RedisClient.Relays.{relayed, with_conn_lem}
use codewave_timer.RedisClient.Replies.{no_texts, hm_get_reply, hscan_reply}
use codewave_timer.RedisClient.Strings.{KeyCommands, get_text, get_reply}
use codewave_timer.RedisClient.Hashes.{HashCommands, hm_get, h_scan}

module _ {S Value Float : Type 0} (c : HashCommands S Value Float) (key : Bytes)
    (fields : List Bytes) (w : RedisState S) (on : w.connected ≡ true) where
  hm_get_lem :
      hm_get c key fields w
      ≡ (hm_get_reply (c.hmget key fields w.server).0, relayed (c.hmget key fields) w)
  unfolding hm_get
  hm_get_lem = with_conn_lem hm_get_reply (c.hmget key fields) hm_get_reply_returns w on

  -- HMGet panics exactly when the command has no error and a field is missing; it returns texts and
  -- no error exactly when every field is there; it returns no text and an error exactly when the
  -- command has that error. In each case the command has run once and the connection is given back.
  pub hm_get_outcome :
      HmGetOutcome (c.hmget key fields w.server).0 (hm_get c key fields w).0
      × ((hm_get c key fields w).1 ≡ relayed (c.hmget key fields) w)
  hm_get_outcome = rw hm_get_lem (hm_get_reply_outcome (c.hmget key fields w.server).0, refl)

module _ {S Value Float : Type 0} (c : HashCommands S Value Float) (key : Bytes) (cursor : ℕ)
    (match : Bytes) (count : ℤ) (w : RedisState S) (on : w.connected ≡ true) where
  h_scan_lem : h_scan c key cursor match count w ≡ (
    hscan_reply (c.hscan key cursor match count w.server).0,
    relayed (c.hscan key cursor match count) w,
  )
  unfolding h_scan
  h_scan_lem = with_conn_lem hscan_reply (c.hscan key cursor match count) hscan_reply_returns w on

  -- HScan of a reply of pairs returns the cursor and a map that has the last value of each key.
  pub h_scan_pairs :
      (ps : List (Bytes × Bytes)) (next : ℕ)
      → (c.hscan key cursor match count w.server).0 ≡ ((flat ps, next), none)
      → (m : TextMap) × (h_scan c key cursor match count w
          ≡ (ok ((m, next), none), relayed (c.hscan key cursor match count) w))
        × ((j : Bytes) → m j ≡ last_value j ps none)
  unfolding hscan_reply
  h_scan_pairs ps next h =
      (put_all ps no_texts, h_scan_lem ∙ rw (h, to_map-flat ps no_texts), put_all-last ps no_texts)

  -- HScan panics exactly when the command has no error and an odd number of texts.
  h_scan_panics : ((h_scan c key cursor match count w).0 ≡ panic) ↔ (
      ((c.hscan key cursor match count w.server).0.1 ≡ none)
      × IsOdd (c.hscan key cursor match count w.server).0.0.0)
  h_scan_panics = rw h_scan_lem (hscan_reply_panics (c.hscan key cursor match count w.server).0)

-- Get returns a text and true exactly when the command gives it, no text and false without an error
-- exactly when the command's error is redis.Nil, and any other error with no text and false. In each
-- case the command has run once and the connection is given back.
pub get_text_outcome :
    {S Value : Type 0} (c : KeyCommands S Value) (is_nil : Error → Bool) (key : Bytes)
    (w : RedisState S)
    → w.connected ≡ true
    → (g : (Bytes × Bool) × Option Error) × (get_text c is_nil key w
        ≡ (ok g, relayed (c.get key) w))
      × GetOutcome is_nil (c.get key w.server).0 g
unfolding get_text
get_text_outcome c is_nil key w on = (
  get_reply is_nil (c.get key w.server).0,
  with_conn_lem (λ r. ok (get_reply is_nil r)) (c.get key) (λ r. cc) w on,
  get_reply_outcome is_nil (c.get key w.server).0,
)
