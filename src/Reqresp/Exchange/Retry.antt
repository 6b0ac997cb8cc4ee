-- ===== src/Reqresp/Exchange/Retry.antt =====
-- reqresp/request.go and reqresp/conn.go: the attempts of the package functions `Request` and
-- `RequestChunks`, which differ in what they ask of the session. What each attempt meets is a
-- parameter; an error is its text.
use raidan_sdk.Prelude.{
  ℕ, zero, suc, ◌+◌, ◌≤◌, Bool, true, false, not, ◌&&◌, ◌||◌, Option, none, some, Bytes, codes,
  ◌==◌, if◌then◌else◌, arith,
}
use raidan_sdk.Prelude.Result.{Result, ok, err}
use raidan_sdk.Reqresp.Exchange.{contains}
use raidan_sdk.Rpc.ForkId.{to_lower}

abbrev pub consensus_request_attempts : ℕ
consensus_request_attempts = 3

unfoldable pub retryable_consensus_connect_error : Bytes → Bool
retryable_consensus_connect_error text =
    let message = to_lower text in
    contains message (codes "connect consensus peer")
    || (contains message (codes "open stream") && contains message (codes "connection failed"))
    || contains message (codes "failed to dial")
    || contains message (codes "failed to negotiate stream multiplexer")
    || contains message (codes "failed to negotiate security protocol")
    || contains message (codes "use of closed network connection")
    || contains message (codes "i/o timeout")

-- What one attempt meets: the errors of the new session, of the handshake where one is asked for, and
-- of the pause behind it; and the exchange, with whether its hook ran without an error.
pub record Attempt (A : Type 0) : Type 0 where
  pub session_error : Option Bytes
  pub warmup_error : Option Bytes
  pub exchange : Result Bytes A
  pub sent : Bool
  pub sleep_error : Option Bytes

pub data RetryError : Type 0 where
  attempt_failed status_warmup pause : Bytes → RetryError
  no_attempt : RetryError

-- The outcome, with the sessions opened and the requests sent on the way.
pub record Retried (A : Type 0) : Type 0 where
  pub result : Result RetryError A
  pub sessions : ℕ
  pub sends : ℕ

module _ {A : Type 0} where
  abbrev pub done : Result RetryError A → Retried A
  done r = record { result = r; sessions = 0; sends = 0 }

  abbrev pub session_opened : Retried A → Retried A
  session_opened r = record r { sessions = r.sessions + 1 }

  abbrev pub count_send : Bool → Retried A → Retried A
  count_send sent r = record r { sends = r.sends + (if sent then 1 else 0) }

  abbrev pub on_pause : Retried A → Option Bytes → Retried A
  on_pause more (some e) = done (err (pause e))
  on_pause more none = more

  abbrev pub on_failure : Bool → Bytes → Attempt A → Retried A → Retried A
  on_failure gives_up e a more =
      if gives_up then done (err (attempt_failed e)) else on_pause more a.sleep_error

  abbrev pub on_exchange : Bool → Attempt A → Retried A → Result Bytes A → Retried A
  on_exchange final a more (ok r) = done (ok r)
  on_exchange final a more (err e) =
      on_failure (a.sent || final || not (retryable_consensus_connect_error e)) e a more

  abbrev pub on_warmup : Bool → Attempt A → Retried A → Option Bytes → Retried A
  on_warmup final a more (some e) = done (err (status_warmup e))
  on_warmup final a more none = count_send a.sent (on_exchange final a more a.exchange)

  abbrev pub on_session : Bool → Bool → Attempt A → Retried A → Option Bytes → Retried A
  on_session handshake final a more (some e) =
      on_failure (final || not (retryable_consensus_connect_error e)) e a more
  on_session handshake final a more none =
      session_opened (on_warmup final a more (if handshake then a.warmup_error else none))

  -- The loop, with the attempts left; `more` is what the next attempts do.
  unfoldable pub attempts_from : Bool → ℕ → ℕ → (ℕ → Attempt A) → Retried A
  attempts_from handshake zero attempt env = done (err no_attempt)
  attempts_from handshake (suc left) attempt env =
      on_session handshake (left == 0) (env attempt)
        (attempts_from handshake left (attempt + 1) env) (env attempt).session_error

  unfoldable pub request_with_retries : Bool → (ℕ → Attempt A) → Retried A
  request_with_retries handshake env = attempts_from handshake consensus_request_attempts 0 env

  -- At most `n` sessions and one request, and an attempt that was made.
  abbrev pub Sparing : ℕ → Retried A → Type 0
  Sparing n r = (r.sessions ≤ n) × (r.sends ≤ 1)

  on_failure-Sparing :
      (n : ℕ) (gives_up : Bool) (e : Bytes) (a : Attempt A) (more : Retried A)
      → Sparing n more
      → Sparing n (on_failure gives_up e a more)
  on_failure-Sparing n true e a more h = ground arith
  on_failure-Sparing n false e a more h = go a.sleep_error
    where
      go : (o : Option Bytes) → Sparing n (on_pause more o)
      go none = h
      go (some x) = ground arith

  on_warmup-Sparing :
      (n : ℕ) (final : Bool) (a : Attempt A) (more : Retried A) (o : Option Bytes)
      → Sparing n more
      → Sparing n (on_warmup final a more o)
  on_warmup-Sparing n final a more (some e) h = ground arith
  on_warmup-Sparing n final a more none h = go a.sent a.exchange
    where
      go :
          (s : Bool) (x : Result Bytes A)
          → Sparing n (count_send s (on_exchange final (record a { sent = s }) more x))
      go true (ok r) = ground arith
      go false (ok r) = ground arith
      go true (err e) = ground arith
      go false (err e) =
          let quiet =
            on_failure-Sparing n (final || not (retryable_consensus_connect_error e)) e a more h in
          omega (arith, quiet)

  attempts_from-Sparing :
      (handshake : Bool) (left attempt : ℕ) (env : ℕ → Attempt A)
      → Sparing left (attempts_from handshake left attempt env)
  unfolding attempts_from
  attempts_from-Sparing handshake zero attempt env = ground arith
  attempts_from-Sparing handshake (suc left) attempt env =
      go (env attempt) (env attempt).session_error (attempts_from handshake left (attempt + 1) env)
        (attempts_from-Sparing handshake left (attempt + 1) env)
    where
      go :
          (a : Attempt A) (o : Option Bytes) (more : Retried A)
          → Sparing left more
          → Sparing (suc left) (on_session handshake (left == 0) a more o)
      go a (some e) more h =
          let quiet =
            on_failure-Sparing left ((left == 0) || not (retryable_consensus_connect_error e)) e a
              more h in
          omega (arith, quiet)
      go a none more h =
          let quiet =
            on_warmup-Sparing left (left == 0) a more (if handshake then a.warmup_error else none)
              h in
          omega (arith, quiet)

  -- A request with retries opens at most three sessions, and of all its exchanges at most one gets past
  -- the hook before the send: a request whose bytes may be on the wire is never sent again.
  pub request_with_retries-Sparing :
      (handshake : Bool) (env : ℕ → Attempt A) → Sparing 3 (request_with_retries handshake env)
  unfolding request_with_retries
  request_with_retries-Sparing handshake env = attempts_from-Sparing handshake 3 0 env
