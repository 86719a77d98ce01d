-- ===== src/Api/Server/Options/Announced.antt =====
-- server.go: what a list of options amounts to, in the server's fields, routes and published status.
use cuebooth.Prelude.{
  ℕ, ◌⊎◌, inl, ◌≡◌, refl, sym, ◌∙◌, Bool, Option, none, some, List, [], ◌∷◌, ◌++◌, Bytes, ap,
}
use mathlib.Core.List.{append_assoc, append-nil}
use cuebooth.Bytes.{bytes}
use cuebooth.Table.{lookup}
use cuebooth.Config.Chat.{Url}
use cuebooth.State.{State, ChatState}
use cuebooth.State.Json.{Json, Object, end}
use cuebooth.State.Store.{new_store}
use cuebooth.Api.Chat.{Provider, status_text}
use cuebooth.Api.Chat
use cuebooth.Api.Chat.Published.{update-cur, Shows, publish-Shows, chat_panel}
use cuebooth.Api.Server.{Route, route_of, chat_url, chat_auth, chat_callback, web_ui}
use cuebooth.Api.Server.Options.{
  Setting, with_version, with_server_id, with_poll_interval, with_sources, with_satellite,
  with_chat, Fields, unless_nil, is_given, apply, apply_all, initial, published, new_server,
}

-- The last thing that a list gives.
unfoldable pub last_given {ℓ₁ ℓ₂} : {A : Type ℓ₁} {B : Type ℓ₂} → (A → Option B) → List A → Option B
last_given f [] = none
last_given f (a ∷ later) = unless_nil (last_given f later) (f a)

-- A version that is not blank.
abbrev pub version_of : {P S : Type 0} → Setting P S → Option Bytes
version_of (with_version []) = none
version_of (with_version (b ∷ v)) = some (b ∷ v)
version_of (with_server_id id) = none
version_of (with_poll_interval d) = none
version_of (with_sources more) = none
version_of (with_satellite sat) = none
version_of (with_chat p) = none

abbrev pub chat_of : {P S : Type 0} → Setting P S → Option (Provider P × P)
chat_of (with_version v) = none
chat_of (with_server_id id) = none
chat_of (with_poll_interval d) = none
chat_of (with_sources more) = none
chat_of (with_satellite sat) = none
chat_of (with_chat p) = p

abbrev pub sources_of : {P S : Type 0} → Setting P S → List S
sources_of (with_version v) = []
sources_of (with_server_id id) = []
sources_of (with_poll_interval d) = []
sources_of (with_sources more) = more
sources_of (with_satellite sat) = []
sources_of (with_chat p) = []

unfoldable pub all_sources : {P S : Type 0} → List (Setting P S) → List S
all_sources [] = []
all_sources (opt ∷ later) = sources_of opt ++ all_sources later

last_first {ℓ} :
    {A : Type ℓ} (a b c : Option A) → unless_nil a (unless_nil b c) ≡ unless_nil (unless_nil a b) c
last_first none b c = refl
last_first (some x) b c = refl

-- A field that an option sets or leaves is set by the last option that sets it.
module _ {P S B : Type 0} (sets : Setting P S → Option B) (field : Fields P S → Option B)
    (law : (s : Fields P S) (opt : Setting P S)
      → field (apply s opt) ≡ unless_nil (sets opt) (field s)) where
  last_counts :
      (opts : List (Setting P S)) (s : Fields P S)
      → field (apply_all s opts) ≡ unless_nil (last_given sets opts) (field s)
  unfolding apply_all last_given
  last_counts [] s = refl
  last_counts (opt ∷ later) s =
      last_counts later (apply s opt)
      ∙ (ap (unless_nil (last_given sets later)) (law s opt)
          ∙ last_first (last_given sets later) (sets opt) (field s))

version_law :
    {P S : Type 0} (s : Fields P S) (opt : Setting P S)
    → some (apply s opt).version ≡ unless_nil (version_of opt) (some s.version)
unfolding apply
version_law s (with_version []) = refl
version_law s (with_version (b ∷ v)) = refl
version_law s (with_server_id id) = refl
version_law s (with_poll_interval d) = refl
version_law s (with_sources more) = refl
version_law s (with_satellite sat) = refl
version_law s (with_chat p) = refl

chat_law :
    {P S : Type 0} (s : Fields P S) (opt : Setting P S)
    → (apply s opt).chat ≡ unless_nil (chat_of opt) s.chat
unfolding apply
chat_law s (with_version v) = refl
chat_law s (with_server_id id) = refl
chat_law s (with_poll_interval d) = refl
chat_law s (with_sources more) = refl
chat_law s (with_satellite sat) = refl
chat_law s (with_chat p) = refl

source_law :
    {P S : Type 0} (s : Fields P S) (opt : Setting P S)
    → (apply s opt).sources ≡ s.sources ++ sources_of opt
unfolding apply
source_law s (with_version v) = sym (append-nil s.sources)
source_law s (with_server_id id) = sym (append-nil s.sources)
source_law s (with_poll_interval d) = sym (append-nil s.sources)
source_law s (with_sources more) = refl
source_law s (with_satellite sat) = sym (append-nil s.sources)
source_law s (with_chat p) = sym (append-nil s.sources)

sources_kept :
    {P S : Type 0} (opts : List (Setting P S)) (s : Fields P S)
    → (apply_all s opts).sources ≡ s.sources ++ all_sources opts
unfolding apply_all all_sources
sources_kept [] s = sym (append-nil s.sources)
sources_kept (opt ∷ later) s =
    rw (sources_kept later (apply s opt), source_law s opt)
      (append_assoc s.sources (sources_of opt) (all_sources later))

given_or_none {ℓ} : {A : Type ℓ} (p : Option A) → unless_nil p none ≡ p
given_or_none none = refl
given_or_none (some p) = refl

-- What the state says of the chat at the start.
abbrev pub panel_of : {P : Type 0} → Option (Provider P × P) → ℕ → Option ChatState
panel_of none now = none
panel_of (some (provider, p)) now =
    some (record { provider = provider.name; status = status_text (provider.authorized p now) })

-- A route that is there with a provider only.
abbrev pub with_provider {ℓ} : {A : Type ℓ} → Option A → Route → Route
with_provider none r = web_ui
with_provider (some p) r = r

route_given :
    {P : Type 0} (p : Option (Provider P × P))
    → (route_of (is_given p) (bytes "/chat/url") ≡ with_provider p chat_url)
      × (route_of (is_given p) (bytes "/chat/auth/start") ≡ with_provider p chat_auth)
      × (route_of (is_given p) (bytes "/chat/auth/callback") ≡ with_provider p chat_callback)
unfolding route_of lookup
route_given none = (refl, refl, refl)
route_given (some p) = (refl, refl, refl)

module _ (public_url : List Bytes) (parse : Bytes → Option Url) (to_map : State → Option Object)
    (deep_equal : Json → Json → Bool) where
  panel_published :
      {P : Type 0} (p : Option (Provider P × P)) (zero_state : State) (now : ℕ)
      → zero_state.stream ≡ none
      → chat_panel (published public_url parse to_map deep_equal p (new_store zero_state) now).st
        ≡ panel_of p now
  unfolding published new_store Chat.publish_chat_status Chat.new_server
  panel_published none zero_state now e = rw e refl
  panel_published (some (provider, p)) zero_state now e = Shows.panel (
      publish-Shows public_url parse provider to_map deep_equal
        (Chat.new_server p (new_store zero_state)) now)

  sent_published :
      {P : Type 0} (p : Option (Provider P × P)) (zero_state : State) (now : ℕ)
      → let s = published public_url parse to_map deep_equal p (new_store zero_state) now in
        (s.cur ≡ end) ⊎ (to_map s.st ≡ some s.cur)
  unfolding published new_store Chat.publish_chat_status Chat.new_server
  sent_published none zero_state now = inl refl
  sent_published (some (provider, p)) zero_state now =
      update-cur to_map deep_equal (new_store zero_state) _

  -- Whatever the options and their order, NewServer keeps the last provider that is not nil, the last
  -- version that is not blank, and the sources of all options in order; the chat routes are there if
  -- and only if there is such a provider, and their paths go to the web client otherwise; the server's
  -- first state names that provider with its status, or no chat where there is none; and what a
  -- client can be sent of it is its JSON form, or empty where the store did not come to take that up.
  pub new_server_announces :
      {P S : Type 0} (zero_state : State) (hostname : Bytes) (opts : List (Setting P S)) (now : ℕ)
      → zero_state.stream ≡ none
      → let b = new_server public_url parse to_map deep_equal zero_state hostname opts now in
        let chat = last_given chat_of opts in
        (b.fields.chat ≡ chat)
        × (some b.fields.version ≡ unless_nil (last_given version_of opts) (some (bytes "0.1.0")))
        × (b.fields.sources ≡ all_sources opts)
        × (route_of b.has_chat (bytes "/chat/url") ≡ with_provider chat chat_url)
        × (route_of b.has_chat (bytes "/chat/auth/start") ≡ with_provider chat chat_auth)
        × (route_of b.has_chat (bytes "/chat/auth/callback") ≡ with_provider chat chat_callback)
        × (chat_panel b.store.st ≡ panel_of chat now)
        × ((b.store.cur ≡ end) ⊎ (to_map b.store.st ≡ some b.store.cur))
  unfolding new_server initial
  new_server_announces zero_state hostname opts now e =
      let kept =
        last_counts chat_of (λ s. s.chat) chat_law opts (initial hostname)
        ∙ given_or_none (last_given chat_of opts) in
      let versions =
        last_counts version_of (λ s. some s.version) version_law opts (initial hostname) in
      let (url, start, callback) = route_given (last_given chat_of opts) in
      let panel = panel_published (last_given chat_of opts) zero_state now e in
      (
        kept,
        versions,
        sources_kept opts (initial hostname),
        rw kept url,
        rw kept start,
        rw kept callback,
        rw kept panel,
        rw kept (sent_published (last_given chat_of opts) zero_state now),
      )
