-- ===== src/RedisClient/Replies.antt =====
-- pkg/cache/redis-cli.go: the replies that HMGet, HScan and ZScan convert.
use codewave_timer.Base.{
  ℕ, if◌then◌else◌, List, [], ◌∷◌, Bytes, bytes_eq, Option, none, some, Result, ok, panic, Error,
  ◌>>=◌,
}
use codewave_timer.RedisClient.Conn.{TextMap}

abbrev pub no_texts : TextMap
no_texts k = none

-- `for i, v := range ret { retSlice[i] = v.(string) }`: a nil is no string.
unfoldable pub all_texts : List (Option Bytes) → Result (List Bytes)
all_texts [] = ok []
all_texts (none ∷ ret) = panic
all_texts (some v ∷ ret) = do vs ← all_texts ret; ok (v ∷ vs)

-- HMGet
unfoldable pub hm_get_reply :
    List (Option Bytes) × Option Error → Result (List Bytes × Option Error)
hm_get_reply (ret, none) = do vs ← all_texts ret; ok (vs, none)
hm_get_reply (ret, some e) = ok ([], some e)

-- `m[key] = value`
abbrev pub put_text : Bytes → Bytes → TextMap → TextMap
put_text key value m k = if bytes_eq key k then some value else m k

-- `for i := 0; i < len(ret); i += 2 { retMap[ret[i]] = ret[i+1] }`
unfoldable pub to_map : List Bytes → TextMap → Result TextMap
to_map [] m = ok m
to_map (key ∷ []) m = panic
to_map (key ∷ value ∷ ret) m = to_map ret (put_text key value m)

-- HScan returns the cursor of the reply with an error.
unfoldable pub hscan_reply : (List Bytes × ℕ) × Option Error → Result ((TextMap × ℕ) × Option Error)
hscan_reply ((ret, cursor), none) = do m ← to_map ret no_texts; ok ((m, cursor), none)
hscan_reply ((ret, cursor), some e) = ok ((no_texts, cursor), some e)

-- ZScan returns the cursor 0 with an error.
unfoldable pub zscan_reply : (List Bytes × ℕ) × Option Error → Result ((TextMap × ℕ) × Option Error)
zscan_reply ((ret, cursor), none) = do m ← to_map ret no_texts; ok ((m, cursor), none)
zscan_reply ((ret, cursor), some e) = ok ((no_texts, 0), some e)
