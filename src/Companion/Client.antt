-- ===== src/Companion/Client.antt =====
-- server/internal/companion/client.go: requests to Companion's HTTP API with bounded retries.
-- What the network and the caller's context do on each attempt is an argument.
pub mod Attempts
pub mod Calls
pub mod Targets
use cuebooth.Prelude.{
  ℕ, zero, suc, ◌+◌, Bool, true, false, ◌&&◌, ◌||◌, not, Option, none, some, List, [], ◌∷◌, ltb,
  leb, ◌==◌, if◌then◌else◌, Bytes,
}

pub data Method : Type 0 where
  get post : Method

-- What `httpClient.Do` gives: no response, or a status with a body that may fail to be read.
pub data Outcome : Type 0 where
  no_response : Outcome
  response : ℕ → Option Bytes → Outcome

pub data Error : Type 0 where
  transport unreadable : Error
  unexpected_status : ℕ → Error
  context_done : Error

pub data Result {ℓ} (A : Type ℓ) : Type ℓ where
  ok : A → Result A
  err : Error → Result A

-- One round of the loop: whether the context ends the sleep before it, what the attempt meets, and
-- whether the context is done after it.
pub record Round : Type 0 where
  pub sleep_cancelled : Bool
  pub outcome : Outcome
  pub done_after : Bool

abbrev pub idempotent : Method → Bool
idempotent get = true
idempotent post = false

unfoldable pub is_success : ℕ → Bool
is_success status = leb 200 status && ltb status 300

-- 5xx, and 429 Too Many Requests.
unfoldable pub is_transient : ℕ → Bool
is_transient status = leb 500 status || status == 429

-- A body is read on the success of a GET only.
unfoldable pub read_body : Method → Option Bytes → Bool × Result Bytes
read_body post body = (false, ok [])
read_body get none = (true, err unreadable)
read_body get (some body) = (false, ok body)

-- The returned Bool says whether the error is worth retrying.
unfoldable pub attempt : Method → Outcome → Bool × Result Bytes
unfolding read_body is_success is_transient
attempt method no_response = (idempotent method, err transport)
attempt method (response status body) =
    if is_success status
    then read_body method body
    else (is_transient status, err (unexpected_status status))

-- The requests that were sent, with what became of each, and the result.
abbrev pub Run : Type 0
Run = List Outcome × Result Bytes

unfoldable pub send : Outcome → Run → Run
send o (sent, r) = (o ∷ sent, r)

-- What follows an attempt: a result, or the rest of the loop.
unfoldable pub after : Round → Bool × Result Bytes → Run → Run
after r (retryable, ok body) rest = ([], ok body)
after r (retryable, err e) rest = if not retryable || r.done_after then ([], err e) else rest

-- `lastErr = err`
abbrev failure : Error → Result Bytes → Error
failure last_err (ok body) = last_err
failure last_err (err e) = e

-- `for attempt := 0; attempt <= c.maxRetries; attempt++`, with the rounds left, the number of the
-- round, and `lastErr`.
unfoldable pub loop : ℕ → ℕ → Method → (ℕ → Round) → Error → Run
unfolding after send
loop zero n method rounds last_err = ([], err last_err)
loop (suc left) n method rounds last_err =
    let r = rounds n in
    let (retryable, result) = attempt method r.outcome in
    let rest = loop left (suc n) method rounds (failure last_err result) in
    if leb 1 n && r.sleep_cancelled
    then ([], err context_done)
    else send r.outcome (after r (retryable, result) rest)

-- `do`: the first round sets `lastErr`, whatever it was.
unfoldable pub do_request : ℕ → Method → (ℕ → Round) → Run
unfolding loop
do_request max_retries method rounds = loop (suc max_retries) 0 method rounds transport
