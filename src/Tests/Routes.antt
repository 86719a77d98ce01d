-- ===== src/Tests/Routes.antt =====
-- Concrete inputs for the theorems on the chat routes and the configuration.
use cuebooth.Prelude.{
  ℕ, ◌+◌, ◌≡◌, ◌⊎◌, refl, Bool, true, false, Option, none, some, List, [], ◌∷◌, ◌++◌, Bytes,
  if◌then◌else◌, ltb,
}
use cuebooth.Bytes.{bytes, equal, equal_fold, to_lower, trim_space, trim_left, trim_right, is_space}
use cuebooth.State.{State, StreamState}
use cuebooth.State.Json.{Json, Object, end, field, null}
use cuebooth.State.Store.{Store}
use cuebooth.Config.Chat.{
  Url, ChatConfig, primary, hosts, trim_slashes, provider_name, validate_parsed, validate_url,
  validate_urls,
}
use cuebooth.Config.Chat
use cuebooth.Chat.Restream.{ok, err, needs_auth}
use cuebooth.Api.Chat.{
  Provider, Request, Server, http_error, redirect, provider_unavailable, chat_site_allowed,
  chat_host_allowed, any_host, chat_guard, chat_auth_public_redirect, chat_auth_path,
  serve_chat_url, serve_chat_auth_start, enter_callback, new_server,
}
use cuebooth.Api.Chat.Guard.{foreign_refused, other_host}
use cuebooth.Api.Chat.Redirects.{IsSettled, start_settles}
use cuebooth.Api.Chat.Published.{Shows, chat_panel, serve_chat_url-Shows}
use cuebooth.Api.Chat.Slots.{IsCounted, Reach-IsCounted, fresh, entered}
use cuebooth.Api.Server.{route_of, chat_url, chat_auth, chat_callback}
use cuebooth.Api.Server.Options
use cuebooth.Api.Server.Options.{Setting, with_version, with_sources, with_chat, unless_nil}
use cuebooth.Api.Server.Options.Announced.{
  last_given, version_of, chat_of, all_sources, with_provider, panel_of, new_server_announces,
}
use cuebooth.Api.Chat.Drained.{finish_all, drained_admits}

-- The two addresses that the tests know.
abbrev pub parse : Bytes → Option Url
parse s =
    if equal s (bytes "http://pc:7878")
    then some (record { scheme = bytes "http"; host = bytes "pc:7878"; path = [] })
    else if equal s (bytes "http://booth:7878")
    then some (record { scheme = bytes "http"; host = bytes "booth:7878"; path = [] })
    else none

abbrev chat_config : ChatConfig
chat_config = record {
  provider = bytes "restream";
  client_id = bytes "id";
  client_secret = bytes "secret";
  public_url = bytes "http://pc:7878/" ∷ bytes "http://booth:7878" ∷ [];
  token_file = bytes "/etc/chat.json";
}

chat_on : Chat.disabled chat_config ≡ false
unfolding Chat.disabled provider_name to_lower trim_space trim_left trim_right is_space
chat_on = refl

chat_valid : Chat.validate parse chat_config ≡ none
unfolding Chat.validate Chat.validate_enabled Chat.disabled provider_name to_lower trim_space
    trim_left trim_right is_space validate_urls validate_url validate_parsed trim_slashes
chat_valid = refl

-- Authorized from the second on.
abbrev provider : Provider ℕ
provider = record {
  name = bytes "restream";
  authorized = λ p now. ltb 1 now;
  url = λ p now. (p, if ltb 1 now then ok (bytes "https://chat") else err needs_auth);
  login_url = λ p now. (p, some (bytes "https://login"));
  complete = λ p code state now. (p + 1, none);
}

abbrev no_json : State → Option Object
no_json st = none

abbrev never_equal : Json → Json → Bool
never_equal v w = false

abbrev store : Store
store = record {
  st = record { audio = none; camera = []; obs = none; slides = none; stream = none };
  cur = end;
  rev = 0;
}

abbrev server : Server ℕ
server = new_server 0 store

abbrev at_host : Bytes → Request
at_host host = record {
  method = bytes "GET";
  host = host;
  sec_fetch_site = [];
  code = bytes "abc";
  state = bytes "xyz";
}

unnamed : any_host (hosts parse chat_config.public_url) (bytes "evil:7878") ≡ false
unfolding any_host hosts trim_slashes trim_left trim_right equal_fold to_lower
unnamed = refl

foreign_refused_example :
    (code : ℕ) × ((code ≡ 405) ⊎ (code ≡ 403))
    × (serve_chat_url chat_config.public_url parse provider no_json never_equal server
          (at_host (bytes "evil:7878"))
          5
        ≡ (server, http_error code, []))
    × (enter_callback chat_config.public_url parse provider no_json never_equal server
          (at_host (bytes "evil:7878"))
        ≡ (server, some (http_error code)))
foreign_refused_example =
    foreign_refused parse provider no_json never_equal chat_config server
      (at_host (bytes "evil:7878")) 5 chat_on chat_valid (other_host unnamed)

abbrev start_target : Bytes
start_target = bytes "http://pc:7878/chat/auth/start"

start_away :
    chat_auth_public_redirect chat_config.public_url parse (at_host (bytes "booth:7878"))
    ≡ some start_target
unfolding chat_auth_public_redirect primary trim_slashes trim_left trim_right equal_fold to_lower
start_away = refl

site_allowed : chat_site_allowed (at_host (bytes "booth:7878")) ≡ true
unfolding chat_site_allowed
site_allowed = refl

start_settles_example :
    (first : Url) × (parse (primary chat_config.public_url) ≡ some first)
    × (start_target ≡ primary chat_config.public_url ++ chat_auth_path)
    × (serve_chat_auth_start chat_config.public_url parse provider no_json never_equal server
          (at_host (bytes "booth:7878"))
          5
        ≡ (server, redirect start_target))
    × IsSettled parse chat_config first start_target
        (at_host (bytes "PC:7878"))
        (equal_fold first.host (bytes "PC:7878"))
start_settles_example =
    start_settles parse provider no_json never_equal chat_config server
      (at_host (bytes "booth:7878")) (at_host (bytes "PC:7878")) start_target 5 chat_on chat_valid
      refl site_allowed start_away

guard_passes : chat_guard chat_config.public_url parse (at_host (bytes "pc:7878")) ≡ none
unfolding chat_guard chat_site_allowed chat_host_allowed any_host hosts trim_slashes trim_left
    trim_right equal_fold to_lower
guard_passes = refl

serve_chat_url-Shows_example :
    let (s', answer, observed) =
      serve_chat_url chat_config.public_url parse provider no_json never_equal server
        (at_host (bytes "pc:7878"))
        5 in
    ((answer ≡ provider_unavailable) × (s'.store ≡ server.store) × (observed ≡ []))
    ⊎ Shows chat_config.public_url parse provider no_json never_equal s' 5 server.store.st
serve_chat_url-Shows_example =
    serve_chat_url-Shows chat_config.public_url parse provider no_json never_equal server
      (at_host (bytes "pc:7878")) 5 guard_passes

slot_free :
    (enter_callback chat_config.public_url parse provider no_json never_equal server
      (at_host (bytes "pc:7878"))).1
    ≡ none
unfolding enter_callback new_server
slot_free = rw (enter_callback, guard_passes) refl

Reach-IsCounted_example :
    IsCounted chat_config.public_url parse provider no_json never_equal
      (enter_callback chat_config.public_url parse provider no_json never_equal server
        (at_host (bytes "pc:7878"))).0
      (at_host (bytes "pc:7878") ∷ [])
Reach-IsCounted_example =
    Reach-IsCounted chat_config.public_url parse provider no_json never_equal
      (enter_callback chat_config.public_url parse provider no_json never_equal server
        (at_host (bytes "pc:7878"))).0
      (at_host (bytes "pc:7878") ∷ [])
      (entered (at_host (bytes "pc:7878")) (fresh 0 store) slot_free)

drained_admits_example :
    let s' =
      finish_all chat_config.public_url parse provider no_json never_equal
        (enter_callback chat_config.public_url parse provider no_json never_equal server
          (at_host (bytes "pc:7878"))).0
        (at_host (bytes "pc:7878") ∷ [])
        9 in
    (s'.callbacks ≡ 0)
    × ((enter_callback chat_config.public_url parse provider no_json never_equal s'
          (at_host (bytes "pc:7878"))).1
        ≡ none)
drained_admits_example =
    drained_admits chat_config.public_url parse provider no_json never_equal
      (enter_callback chat_config.public_url parse provider no_json never_equal server
        (at_host (bytes "pc:7878"))).0
      (at_host (bytes "pc:7878") ∷ []) (at_host (bytes "pc:7878")) 9
      (entered (at_host (bytes "pc:7878")) (fresh 0 store) slot_free) guard_passes

abbrev given_options : List (Setting ℕ ℕ)
given_options =
    with_chat (some (provider, 7))
    ∷ with_version (bytes "1.2")
    ∷ with_sources (1 ∷ [])
    ∷ with_version []
    ∷ with_chat (some (provider, 0))
    ∷ with_chat none
    ∷ with_sources (2 ∷ [])
    ∷ []

-- A form of the state that shows whether it has a stream.
abbrev stream_of : Option StreamState → Object
stream_of none = end
stream_of (some s) = field (bytes "stream") null end

abbrev stream_json : State → Option Object
stream_json st = some (stream_of st.stream)

new_server_announces_example :
    let b =
      Options.new_server chat_config.public_url parse stream_json never_equal store.st
        (bytes "pc")
        given_options
        5 in
    let chat = last_given chat_of given_options in
    (b.fields.chat ≡ chat)
    × (some b.fields.version
        ≡ unless_nil (last_given version_of given_options) (some (bytes "0.1.0")))
    × (b.fields.sources ≡ all_sources given_options)
    × (route_of b.has_chat (bytes "/chat/url") ≡ with_provider chat chat_url)
    × (route_of b.has_chat (bytes "/chat/auth/start") ≡ with_provider chat chat_auth)
    × (route_of b.has_chat (bytes "/chat/auth/callback") ≡ with_provider chat chat_callback)
    × (chat_panel b.store.st ≡ panel_of chat 5)
    × ((b.store.cur ≡ end) ⊎ (stream_json b.store.st ≡ some b.store.cur))
new_server_announces_example =
    new_server_announces chat_config.public_url parse stream_json never_equal store.st (bytes "pc")
      given_options 5 refl
