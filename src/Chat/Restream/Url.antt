-- ===== src/Chat/Restream/Url.antt =====
-- restream.go: URL, with mint and its retry.
use cuebooth.Prelude.{
  ℕ, ◌+◌, Bool, true, false, ◌&&◌, Option, none, some, [], ◌==◌, if◌then◌else◌, Bytes,
}
use cuebooth.Bytes.{bytes, equal}
use cuebooth.Chat.Restream.{
  Restream, unavailable, needs_auth, unauthorized, forbidden, Result, ok, err, refusal_cooldown,
  authorized,
}
use cuebooth.Chat.Restream.Exchanges.{Response, Exchange, access_token}

-- One attempt to mint a URL, with everything that it meets.
pub record Attempt : Type 0 where
  pub asked : ℕ
  pub held : ℕ
  pub exchange : Exchange
  pub webchat : Option (Response Bytes)

pub read_url : Option Bytes → Result Bytes
read_url none = err unavailable
read_url (some url) = if equal url [] then err unavailable else ok url

unfoldable pub fetch : Option (Response Bytes) → Result Bytes
fetch none = err unavailable
fetch (some a) =
    if a.status == 200
    then read_url a.body
    else if a.status == 401
    then err unauthorized
    else if a.status == 403 && equal a.error_name (bytes "insufficient_scope")
    then err forbidden
    else err unavailable

unfoldable pub fetch_with : Attempt → Restream × Result Bytes → Restream × (Result Bytes × Bytes)
fetch_with a (r, err e) = (r, (err e, []))
fetch_with a (r, ok token) = (r, (fetch a.webchat, token))

-- mint: the URL, and the token used.
unfoldable pub mint : Restream → Bytes → Attempt → Restream × (Result Bytes × Bytes)
mint r retire a = fetch_with a (access_token r retire a.asked a.held a.exchange)

unfoldable pub hold_off : Restream → ℕ → ℕ → Restream
hold_off r gen now = if r.gen == gen then record r { refused_until = now + refusal_cooldown } else r

unfoldable pub is_unauthorized : Result Bytes → Bool
is_unauthorized (err unauthorized) = true
is_unauthorized _ = false

unfoldable pub is_refused : Result Bytes → Bool
is_refused (err unauthorized) = true
is_refused (err forbidden) = true
is_refused _ = false

unfoldable pub settle : ℕ → ℕ → Restream × Result Bytes → Restream × Result Bytes
settle gen now (r, answer) =
    if is_refused answer then (hold_off r gen now, err needs_auth) else (r, answer)

unfoldable pub answer_of : Restream × (Result Bytes × Bytes) → Restream × Result Bytes
answer_of (r, (answer, used)) = (r, answer)

unfoldable pub retried : Attempt → Restream × (Result Bytes × Bytes) → Restream × Result Bytes
retried a (r, (answer, used)) =
    if is_unauthorized answer then answer_of (mint r used a) else (r, answer)

-- URL, with its two attempts and the time at which it holds off.
unfoldable pub url : Restream → Attempt → Attempt → ℕ → Restream × Result Bytes
url r first again now = settle r.gen now (retried again (mint r [] first))

-- StatusOf a provider that is configured.
pub status_of : Restream → ℕ → Bytes
status_of r now = if authorized r now then bytes "ready" else bytes "needs_auth"
