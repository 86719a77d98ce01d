-- ===== src/Api/Server/Options.antt =====
-- server.go: NewServer with its options, up to the routes and the chat status that it publishes. What a
-- satellite's Layout gives, the clock and the host's name are arguments; a nil value is `none`. The
-- dispatcher has its own file, the limits of the chat routes are in Api/Chat, and the logger is left out.
pub mod Announced
use cuebooth.Prelude.{
  ℕ, ◌≡◌, refl, Bool, true, false, Option, none, some, List, [], ◌∷◌, ◌++◌, Bytes, ℤ, pos, ap, sym,
  ◌∙◌, if◌then◌else◌,
}
use cuebooth.Bytes.{bytes}
use cuebooth.Config.Chat.{Url, is_blank}
use cuebooth.State.{State, ChatState}
use cuebooth.State.Json.{Json, Object}
use cuebooth.State.Store.{Store, new_store}
use cuebooth.State.Poller.{poll_interval}
use cuebooth.Api.Chat.{Provider, publish_chat_status, status_text}
use cuebooth.Api.Chat
use cuebooth.Api.Chat.Published.{Shows, publish-Shows, chat_panel}
use cuebooth.Api.Surface.{SurfaceManager, new_surface_manager}
use cuebooth.Api.Server.{Route, routes, route_of, chat_url, chat_auth, chat_callback, web_ui}

-- Option; what Layout gives is the rows, the columns and the edge of a bitmap.
pub data Setting (P S : Type 0) : Type 0 where
  with_version : Bytes → Setting P S
  with_server_id : Bytes → Setting P S
  with_poll_interval : ℤ → Setting P S
  with_sources : List S → Setting P S
  with_satellite : Option (ℕ × ℕ × ℕ) → Setting P S
  with_chat : Option (Provider P × P) → Setting P S

-- The server's fields that the options set.
pub record Fields (P S : Type 0) : Type 0 where
  pub version : Bytes
  pub server_id : Bytes
  pub interval : ℤ
  pub sources : List S
  pub surface : Option SurfaceManager
  pub chat : Option (Provider P × P)

-- `if v != ""`
abbrev pub unless_blank : Bytes → Bytes → Bytes
unless_blank [] old = old
unless_blank (b ∷ v) old = b ∷ v

-- `if sat != nil`
abbrev pub managed : Option (ℕ × ℕ × ℕ) → Option SurfaceManager → Option SurfaceManager
managed none old = old
managed (some (rows, cols, size)) old = some (new_surface_manager rows cols size)

-- `if p != nil`
abbrev pub unless_nil {ℓ} : {A : Type ℓ} → Option A → Option A → Option A
unless_nil none old = old
unless_nil (some p) old = some p

abbrev pub is_given {ℓ} : {A : Type ℓ} → Option A → Bool
is_given none = false
is_given (some p) = true

unfoldable pub apply : {P S : Type 0} → Fields P S → Setting P S → Fields P S
apply s (with_version v) = record s { version = unless_blank v s.version }
apply s (with_server_id id) = record s { server_id = unless_blank id s.server_id }
apply s (with_poll_interval d) = record s { interval = d }
apply s (with_sources more) = record s { sources = s.sources ++ more }
apply s (with_satellite sat) = record s { surface = managed sat s.surface }
apply s (with_chat p) = record s { chat = unless_nil p s.chat }

unfoldable pub apply_all : {P S : Type 0} → Fields P S → List (Setting P S) → Fields P S
apply_all s [] = s
apply_all s (opt ∷ later) = apply_all (apply s opt) later

pub initial : {P S : Type 0} → Bytes → Fields P S
initial hostname = record {
  version = bytes "0.1.0";
  server_id = hostname;
  interval = pos 0;
  sources = [];
  surface = none;
  chat = none;
}

-- The server; the poller's interval is the one that NewPoller keeps, and no connection is there yet.
pub record Built (P S : Type 0) : Type 0 where
  pub fields : Fields P S
  pub store : Store
  pub interval : ℤ
  pub has_chat : Bool

module _ (public_url : List Bytes) (parse : Bytes → Option Url) (to_map : State → Option Object)
    (deep_equal : Json → Json → Bool) where
  -- `if s.chat != nil`: the status is published before the first connection.
  unfoldable pub published : {P : Type 0} → Option (Provider P × P) → Store → ℕ → Store
  published none store now = store
  published (some (provider, p)) store now =
      (publish_chat_status public_url parse provider to_map deep_equal (Chat.new_server p store)
        now).0.store

  unfoldable pub new_server : {P S : Type 0} → State → Bytes → List (Setting P S) → ℕ → Built P S
  unfolding published apply_all
  new_server zero_state hostname opts now =
      let s = apply_all (initial hostname) opts in
      record {
        fields = s;
        store = published s.chat (new_store zero_state) now;
        interval = poll_interval s.interval;
        has_chat = is_given s.chat;
      }
