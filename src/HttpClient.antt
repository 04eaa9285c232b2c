-- ===== src/HttpClient.antt =====
-- The client of the callbacks: internal/utils/http_client.go and http_option.go. JSON, net/url and
-- net/http are parameters.
pub mod Bounds
use codewave_timer.Base.{
  ℕ, zero, suc, ◌*◌, List, [], ◌∷◌, ◌++◌, Bytes, codes, ◌⊎◌, inl, inr, ℤ, pos, pos_part, leb_ℤ,
  length, ◌==◌, if◌then◌else◌, Error,
}
use codewave_timer.GoLib.Clock.{second}
use codewave_timer.Exec.{Exec, raise, ◌>>=◌, pure}

pub record JsonClient : Type 0 where
  pub timeout_duration : ℤ  -- nanoseconds
  pub read_limit_bytes : ℤ

abbrev default_timeout_duration : ℤ
default_timeout_duration = pos (5 * second)

abbrev default_read_limit_bytes : ℤ
default_read_limit_bytes = pos (4 * 1024 * 1024)

unfoldable pub with_timeout : ℤ → JsonClient → JsonClient
with_timeout duration j = record j {
  timeout_duration = if leb_ℤ duration (pos 0) then default_timeout_duration else duration;
}

unfoldable pub with_read_limit_bytes : ℤ → JsonClient → JsonClient
with_read_limit_bytes limit j = record j {
  read_limit_bytes = if leb_ℤ limit (pos 0) then default_read_limit_bytes else limit;
}

repair_limit : JsonClient → JsonClient
unfolding with_read_limit_bytes
repair_limit j =
    if leb_ℤ j.read_limit_bytes (pos 0) then with_read_limit_bytes default_read_limit_bytes j else j

repair_timeout : JsonClient → JsonClient
unfolding with_timeout
repair_timeout j =
    if leb_ℤ j.timeout_duration (pos 0) then with_timeout default_timeout_duration j else j

unfoldable pub repair : JsonClient → JsonClient
unfolding repair_limit repair_timeout
repair j = repair_timeout (repair_limit j)

pub apply_opts : List (JsonClient → JsonClient) → JsonClient → JsonClient
apply_opts [] j = j
apply_opts (opt ∷ opts) j = apply_opts opts (opt j)

unfoldable pub new_http_client : List (JsonClient → JsonClient) → JsonClient
unfolding repair apply_opts
new_http_client opts =
    repair (apply_opts opts (record { timeout_duration = pos 0; read_limit_bytes = pos 0 }))

-- io.LimitReader
unfoldable pub limit_reader : ℕ → Bytes → Bytes
limit_reader zero body = []
limit_reader (suc n) [] = []
limit_reader (suc n) (b ∷ body) = b ∷ limit_reader n body

-- json.Marshal of a request, the exchange under a timeout, json.Unmarshal of an answer; and
-- `neturl.QueryUnescape(values.Encode())`.
pub record Web (W : Type 0) : Type 1 where
  pub Request : Type 0
  pub Answer : Type 0
  pub no_request : Request  -- nil
  pub marshal : Request → Bytes ⊎ Error
  pub exchange : ℤ → Bytes → Bytes → List (Bytes × Bytes) → Bytes → Exec W Bytes
  pub unmarshal : Bytes → Answer ⊎ Error
  pub queries : List (Bytes × Bytes) → Bytes

module _ {W : Type 0} (web : Web W) where
  open web use {Request, Answer}

  read_answer : Answer ⊎ Error → Exec W Answer
  read_answer (inl a) = pure a
  read_answer (inr e) = raise e

  exchanged : JsonClient → Bytes → Bytes → List (Bytes × Bytes) → Bytes ⊎ Error → Exec W Answer
  unfolding read_answer limit_reader
  exchanged j method url header (inr e) = raise e
  exchanged j method url header (inl req_body) =
      web.exchange j.timeout_duration method url header req_body >>= λ body.
      read_answer (web.unmarshal (limit_reader (pos_part j.read_limit_bytes) body))

  -- Do
  unfoldable pub do_request :
      JsonClient → Bytes → Bytes → List (Bytes × Bytes) → Request → Exec W Answer
  unfolding exchanged
  do_request j method url header req = exchanged j method url header (web.marshal req)

  unfoldable pub post : JsonClient → Bytes → List (Bytes × Bytes) → Request → Exec W Answer
  unfolding do_request
  post j url header req = do_request j (codes "POST") url header req

  with_query : Bytes → Bytes → Bytes
  with_query origin_url query =
      if length query == 0 then origin_url else origin_url ++ (codes "?" ++ query)

  unfoldable pub get_complete_url : Bytes → List (Bytes × Bytes) → Bytes
  unfolding with_query
  get_complete_url origin_url params = with_query origin_url (web.queries params)

  unfoldable pub patch : JsonClient → Bytes → List (Bytes × Bytes) → Request → Exec W Answer
  unfolding do_request
  patch j url header req = do_request j (codes "PATCH") url header req

  unfoldable pub delete : JsonClient → Bytes → List (Bytes × Bytes) → Request → Exec W Answer
  unfolding do_request
  delete j url header req = do_request j (codes "DELETE") url header req

  -- Get has no request body of its own: null is sent.
  unfoldable pub get :
      JsonClient → Bytes → List (Bytes × Bytes) → List (Bytes × Bytes) → Exec W Answer
  unfolding do_request get_complete_url
  get j url header params =
      do_request j (codes "GET") (get_complete_url url params) header web.no_request
