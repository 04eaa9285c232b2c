-- ===== src/RedisClient/Relays.antt =====
-- The methods of pkg/cache/redis-cli.go whose answer is a reply, against the commands they send.
use codewave_timer.Base.{
  ◌+◌, ◌≡◌, refl, ◌∙◌, true, if_true, Option, none, some, Result, ok, panic, spin, err, Error,
  arith, ◌≢◌,
}
use codewave_timer.Exec.{deferred, lift, ◌>>=◌}
use codewave_timer.RedisClient.Conn.{
  RedisState, Cmd, Method, result, with_conn, close_conn, reply, answer, answer_by,
}

-- The server has run the command once, and the connection is given back.
abbrev pub relayed : {S A : Type 0} → Cmd S A → RedisState S → RedisState S
relayed cmd w = record w { server = (cmd w.server).1 }

closed :
    {S B : Type 0} (r : Result B) (w : RedisState S)
    → r ≢ spin
    → deferred close_conn (lift r) (record w { held = w.held + 1 }) ≡ (r, w)
unfolding close_conn
closed (ok b) w ends = ground arith
closed (err e) w ends = ground arith
closed panic w ends = ground arith
closed spin w ends = absurd (ends refl)

pub with_conn_lem :
    {S A B : Type 0} (g : A × Option Error → Result B) (cmd : Cmd S A)
    → ((r : A × Option Error) → g r ≢ spin)
    → (w : RedisState S) → w.connected ≡ true
    → with_conn (result cmd >>= λ r. lift (g r)) w ≡ (g (cmd w.server).0, relayed cmd w)
unfolding with_conn result
with_conn_lem g cmd ends w h =
    if_true _ _ h ∙ closed (g (cmd w.server).0) (relayed cmd w) (ends (cmd w.server).0)

module _ {S A B : Type 0} where
  -- The method sends the command once, gives its connection back, returns, and returns the error of
  -- the command.
  abbrev pub Relays : RedisState S → Method S B → Cmd S A → Type 0
  Relays w m cmd = (b : B) × (m w ≡ (ok (b, (cmd w.server).0.1), relayed cmd w))

  pub answer_by-Relays :
      (w : RedisState S) (f : A × Option Error → B × Option Error) (cmd : Cmd S A)
      → w.connected ≡ true
      → ((r : A × Option Error) → (f r).1 ≡ r.1)
      → Relays w (answer_by f cmd) cmd
  answer_by-Relays w f cmd h same = (
    (f (cmd w.server).0).0,
    with_conn_lem (λ r. ok (f r)) cmd (λ r. cc) w h ∙ rw (same (cmd w.server).0),
  )

pub reply_error :
    {A B : Type 0} (failure : B) (f : A → B) (r : A × Option Error) → (reply failure f r).1 ≡ r.1
reply_error failure f (a, none) = refl
reply_error failure f (a, some e) = refl

module _ {S A : Type 0} (w : RedisState S) (cmd : Cmd S A) (h : w.connected ≡ true) where
  pub answer-Relays : (failure : A) → Relays w (answer failure cmd) cmd
  answer-Relays failure =
      answer_by-Relays w (reply failure (λ a. a)) cmd h (reply_error failure (λ a. a))

  pub result-Relays : Relays w (with_conn (result cmd)) cmd
  unfolding result
  result-Relays = ((cmd w.server).0.0, with_conn_lem ok cmd (λ r. cc) w h)
