-- ===== src/Api/Chat.antt =====
-- server/internal/api/chat.go: the three chat routes. The provider is an interface, as chat.Provider
-- is; encoding/json, reflect.DeepEqual and url.Parse are parameters. A callback is two critical
-- sections, as it holds its slot while other requests are served. Headers other than Location, the
-- JSON text, the page's message and the deadlines are left out.
pub mod Guard
pub mod Redirects
pub mod Slots
pub mod Drained
pub mod Published
use cuebooth.Prelude.{
  ℕ, ◌+◌, ◌-◌, ◌*◌, Bool, true, false, not, Option, none, some, List, [], ◌∷◌, ◌++◌, ltb,
  if◌then◌else◌, Bytes, ℤ, pos,
}
use cuebooth.Bytes.{bytes, equal, equal_fold}
use cuebooth.State.{State, StreamState, ChatState}
use cuebooth.State.Json.{Json, Object}
use cuebooth.State.Store.{Store, Result, update}
use cuebooth.Config.Chat.{Url, primary, hosts, is_blank}
use cuebooth.Api.RateLimit.{RateLimiter, new_rate_limiter, allow}
use cuebooth.Chat.Restream.{Error, missing_scope, needs_auth, ok, err, second}
use cuebooth.Chat.Restream

-- chat.Provider; a time is what the provider's clock reads.
pub record Provider (P : Type 0) : Type 0 where
  pub name : Bytes
  pub authorized : P → ℕ → Bool
  pub url : P → ℕ → P × Restream.Result Bytes
  pub login_url : P → ℕ → P × Option Bytes
  pub complete : P → Bytes → Bytes → ℕ → P × Option Error

-- What the routes read of a request; an absent header or parameter is empty.
pub record Request : Type 0 where
  pub method : Bytes
  pub host : Bytes
  pub sec_fetch_site : Bytes
  pub code : Bytes
  pub state : Bytes

pub data Page : Type 0 where
  cancelled missing_permission authorization_failed connected : Page

pub data Answer : Type 0 where
  http_error : ℕ → Answer
  redirect : Bytes → Answer
  chat_url : Bytes → Answer
  auth_needed : Bytes → Answer
  provider_unavailable : Answer
  page : Page → Answer

-- The status that is written.
pub status : Answer → ℕ
status (http_error code) = code
status (redirect target) = 302
status (chat_url url) = 200
status (auth_needed start) = 409
status provider_unavailable = 502
status (page cancelled) = 200
status (page missing_permission) = 400
status (page authorization_failed) = 400
status (page connected) = 200

-- What the routes use of the server; `callbacks` is how many slots are taken.
pub record Server (P : Type 0) : Type 0 where
  pub chat : P
  pub store : Store
  pub chat_starts : RateLimiter
  pub callbacks : ℕ

abbrev pub callback_slots : ℕ
callback_slots = 4

abbrev pub chat_auth_path : Bytes
chat_auth_path = bytes "/chat/auth/start"

unfoldable pub new_server : {P : Type 0} → P → Store → Server P
new_server chat store = record {
  chat = chat;
  store = store;
  chat_starts = new_rate_limiter 5 (12 * second);
  callbacks = 0;
}

unfoldable pub chat_site_allowed : Request → Bool
chat_site_allowed r = not (equal r.sec_fetch_site (bytes "cross-site"))

unfoldable pub any_host : List Bytes → Bytes → Bool
any_host [] host = false
any_host (h ∷ rest) host = if equal_fold h host then true else any_host rest host

abbrev pub is_get : Request → Bool
is_get r = equal r.method (bytes "GET")

-- The chat panel of the state.
abbrev pub or_zero_stream : Option StreamState → StreamState
or_zero_stream none = record { platform = []; viewers = pos 0; chat = none }
or_zero_stream (some s) = s

unfoldable pub set_chat : ChatState → State → State
set_chat chat st = record st {
  stream = some (record (or_zero_stream st.stream) { chat = some chat });
}

abbrev pub status_text : Bool → Bytes
status_text true = bytes "ready"
status_text false = bytes "needs_auth"

-- `errors.Is` with ErrNeedsAuth, and with ErrMissingScope.
abbrev pub is_needs_auth : Error → Bool
is_needs_auth needs_auth = true
is_needs_auth _ = false

abbrev pub is_missing_scope : Error → Bool
is_missing_scope missing_scope = true
is_missing_scope _ = false

module _ (public_url : List Bytes) (parse : Bytes → Option Url) where
  unfoldable pub chat_host_allowed : Request → Bool
  chat_host_allowed r = elim (hosts parse public_url) [
    | [] ↦ true
    | h ∷ rest ↦ any_host (h ∷ rest) r.host
  ]

  -- chatGuard: the answer of a request that is refused.
  unfoldable pub chat_guard : Request → Option Answer
  chat_guard r =
      if not (is_get r)
      then some (http_error 405)
      else if not (chat_site_allowed r)
      then some (http_error 403)
      else if not (chat_host_allowed r)
      then some (http_error 403)
      else none

  abbrev pub is_at : Option Url → Request → Bool
  is_at none r = false
  is_at (some u) r = equal_fold u.host r.host

  unfoldable pub chat_auth_public_redirect : Request → Option Bytes
  chat_auth_public_redirect r =
      let first = primary public_url in
      if is_blank first
      then none
      else if is_at (parse first) r
      then none
      else some (first ++ chat_auth_path)

  module _ {P : Type 0} (provider : Provider P) (to_map : State → Option Object)
      (deep_equal : Json → Json → Bool) where
    -- publishChatStatus: with what the store's observer is called with.
    unfoldable pub publish_chat_status : Server P → ℕ → Server P × List Result
    publish_chat_status s now =
        let status = status_text (provider.authorized s.chat now) in
        let (store, res, observed) =
          update to_map deep_equal s.store
            (set_chat (record { provider = provider.name; status = status })) in
        (record s { store = store }, observed)

    unfoldable pub then_answer : Answer → Server P × List Result → Server P × Answer × List Result
    then_answer a (s, observed) = (s, a, observed)

    unfoldable pub answer_url :
        Server P → Restream.Result Bytes → ℕ → Server P × Answer × List Result
    answer_url s (ok url) now = then_answer (chat_url url) (publish_chat_status s now)
    answer_url s (err e) now =
        if is_needs_auth e
        then then_answer (auth_needed chat_auth_path) (publish_chat_status s now)
        else (s, provider_unavailable, [])

    unfoldable pub serve_chat_url : Server P → Request → ℕ → Server P × Answer × List Result
    serve_chat_url s r now = elim (chat_guard r) [
      | some refusal ↦ (s, refusal, [])
      | none ↦
          let (chat, res) = provider.url s.chat now in answer_url (record s { chat = chat }) res now
    ]

    unfoldable pub answer_start : Server P → P × Option Bytes → Server P × Answer
    answer_start s (chat, none) = (record s { chat = chat }, http_error 500)
    answer_start s (chat, some url) = (record s { chat = chat }, redirect url)

    unfoldable pub start_here : Server P → ℕ → Server P × Answer
    start_here s now =
        let (starts, permitted) = allow s.chat_starts now in
        let s' = record s { chat_starts = starts } in
        if permitted then answer_start s' (provider.login_url s.chat now) else (s', http_error 429)

    unfoldable pub serve_chat_auth_start : Server P → Request → ℕ → Server P × Answer
    serve_chat_auth_start s r now =
        if not (is_get r)
        then (s, http_error 405)
        else if not (chat_site_allowed r)
        then (s, http_error 403)
        else elim (chat_auth_public_redirect r) [
          | some target ↦ (s, redirect target)
          | none ↦ start_here s now
        ]

    -- The callback up to its slot: its answer, if it gets none.
    unfoldable pub enter_callback : Server P → Request → Server P × Option Answer
    enter_callback s r = elim (chat_guard r) [
      | some refusal ↦ (s, some refusal)
      | none ↦
          if ltb s.callbacks callback_slots
          then (record s { callbacks = s.callbacks + 1 }, none)
          else (s, some (http_error 429))
    ]

    unfoldable pub answer_callback : Server P → Option Error → ℕ → Server P × Answer × List Result
    answer_callback s none now = then_answer (page connected) (publish_chat_status s now)
    answer_callback s (some e) now =
        (s, page (if is_missing_scope e then missing_permission else authorization_failed), [])

    unfoldable pub release_slot : Server P × Answer × List Result → Server P × Answer × List Result
    release_slot (s, a, observed) = (record s { callbacks = s.callbacks - 1 }, a, observed)

    -- The callback from its slot on, which it gives back at the end.
    unfoldable pub finish_callback : Server P → Request → ℕ → Server P × Answer × List Result
    finish_callback s r now = release_slot (
        if is_blank r.code
        then (s, page cancelled, [])
        else let (chat, failure) = provider.complete s.chat r.code r.state now in
          answer_callback (record s { chat = chat }) failure now)
