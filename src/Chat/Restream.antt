-- ===== src/Chat/Restream.antt =====
-- server/internal/chat/restream.go, and the credential of tokenstore.go: the provider's credential and
-- its started authorizations. A time is a number of nanoseconds since Go's zero time. The HTTP
-- exchanges, the clock, the random state and the file's writing are arguments; a call of URL or Complete
-- is whole in Exchanges and Url, and taken apart into steps in Flights. An error is the return that gives it, without the text.
pub mod Flights
pub mod Start
pub mod Exchanges
pub mod Url
pub mod Logins
pub mod Refusals
use cuebooth.Prelude.{
  ℕ, ◌+◌, ◌-◌, ◌*◌, ◌^◌, ◌%◌, zero, suc, Bool, true, false, not, ◌&&◌, ◌||◌, Option, none, some,
  List, [], ◌∷◌, ◌++◌, ltb, leb, ◌==◌, if◌then◌else◌, Bytes, length, ℤ, pos, negsuc,
}
use cuebooth.Bytes.{bytes, equal, split}
use cuebooth.Table.{Table, lookup, insert, delete}

pub record Tokens : Type 0 where
  pub access_token : Bytes
  pub refresh_token : Bytes
  pub access_expiry : ℕ
  pub refresh_expiry : ℕ
  pub scope : Bytes

abbrev pub no_tokens : Tokens
no_tokens = record {
  access_token = [];
  refresh_token = [];
  access_expiry = 0;
  refresh_expiry = 0;
  scope = [];
}

unfoldable pub valid : Tokens → ℕ → Bool
valid t now =
    not (equal t.refresh_token []) && ((t.refresh_expiry == 0) || ltb now t.refresh_expiry)

pub record PendingLogin : Type 0 where
  pub expires : ℕ
  pub seq : ℕ

-- `stored` is what the token file holds.
pub record Restream : Type 0 where
  pub tok : Tokens
  pub pending : Table PendingLogin
  pub pending_seq : ℕ
  pub refused_until : ℕ
  pub gen : ℕ
  pub token_calls : ℕ
  pub stored : Tokens

pub data Error : Type 0 where
  no_code unknown_state unavailable invalid_grant missing_scope : Error
  needs_auth unauthorized forbidden : Error

pub data Result {ℓ} (A : Type ℓ) : Type ℓ where
  ok : A → Result A
  err : Error → Result A

abbrev pub second : ℕ
second = 10 ^ 9

abbrev pub refresh_skew : ℕ
refresh_skew = 120 * second

abbrev pub login_state_ttl : ℕ
login_state_ttl = 600 * second

abbrev pub max_pending_logins : ℕ
max_pending_logins = 64

abbrev pub assumed_access_lifetime : ℕ
assumed_access_lifetime = 3600 * second

abbrev pub refusal_cooldown : ℕ
refusal_cooldown = 300 * second

-- Authorized
unfoldable pub authorized : Restream → ℕ → Bool
authorized r now = valid r.tok now && not (ltb now r.refused_until)

unfoldable pub prune_pending : ℕ → Table PendingLogin → Table PendingLogin
prune_pending now [] = []
prune_pending now ((state, login) ∷ t) =
    let rest = prune_pending now t in if ltb login.expires now then rest else (state, login) ∷ rest

-- The loop of evictOldestPendingLocked, with `oldest` and `found`.
unfoldable pub oldest_from : Bytes → PendingLogin → Table PendingLogin → Bytes
oldest_from oldest found [] = oldest
oldest_from oldest found ((state, login) ∷ t) =
    let is_older = equal oldest [] || ltb login.seq found.seq in
    oldest_from (if is_older then state else oldest) (if is_older then login else found) t

unfoldable pub evict_oldest_pending : Table PendingLogin → Table PendingLogin
evict_oldest_pending t = delete (oldest_from [] (record { expires = 0; seq = 0 }) t) t

-- `for len(r.pending) >= maxPendingLogins`, with the rounds left.
unfoldable pub make_room : ℕ → Table PendingLogin → Table PendingLogin
make_room zero t = t
make_room (suc fuel) t =
    if leb max_pending_logins (length t) then make_room fuel (evict_oldest_pending t) else t

-- LoginURL, with the random state and without the URL's text. A round of eviction takes an entry
-- away, so as many rounds as entries are enough.
pub login_url : Restream → Bytes → ℕ → Restream
login_url r state now =
    let pruned = prune_pending now r.pending in
    let kept = make_room (length pruned) pruned in
    let n = (r.pending_seq + 1) % 2 ^ 64 in
    record r {
      pending = insert state (record { expires = now + login_state_ttl; seq = n }) kept;
      pending_seq = n;
    }
