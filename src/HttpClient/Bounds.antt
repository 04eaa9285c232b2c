-- ===== src/HttpClient/Bounds.antt =====
-- The client never waits without a limit, and never reads more than its limit.
use codewave_timer.Base.{arith, List, pos, ◌<ℤ◌}
use codewave_timer.HttpClient.{
  JsonClient, with_timeout, with_read_limit_bytes, repair, new_http_client, apply_opts,
}

pub record IsBounded (j : JsonClient) : Type 0 where
  pub waits : pos 0 <ℤ j.timeout_duration
  pub reads : pos 0 <ℤ j.read_limit_bytes

repair-IsBounded : (j : JsonClient) → IsBounded (repair j)
unfolding repair with_timeout with_read_limit_bytes
repair-IsBounded j = record { waits = ground arith; reads = ground arith }

-- Whatever its options do, a new client has a positive timeout and a positive limit.
pub new_http_client-IsBounded :
    (opts : List (JsonClient → JsonClient)) → IsBounded (new_http_client opts)
unfolding new_http_client
new_http_client-IsBounded opts =
    repair-IsBounded
      (apply_opts opts (record { timeout_duration = pos 0; read_limit_bytes = pos 0 }))
