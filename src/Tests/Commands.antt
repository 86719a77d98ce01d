-- ===== src/Tests/Commands.antt =====
-- Concrete inputs for the theorems on commands, connections, chat and the limiter.
use cuebooth.Prelude.{
  ℕ, ◌+◌, ◌*◌, ◌≤◌, ◌≡◌, ◌≢◌, refl, Bool, true, false, none, some, [], ◌∷◌, Bytes, pos, arith,
  if◌then◌else◌,
}
use cuebooth.Bytes.{bytes, split, atoi, trim_space}
use cuebooth.Companion.Location.{parse_location}
use cuebooth.Config.Presets.{
  ActionRef, PresetsConfig, validate, validate_ref, validate_table, validate_cameras,
  validate_verbs, location_error, contains,
}
use cuebooth.Config.Presets.Routes.{AllResolved, Routed, validate-AllResolved}
use cuebooth.Api.Dispatch.{CmdFrame, Json, Reply, nak, internal, dispatch, unknown_target}
use cuebooth.Api.Dispatch.Replies.{Answered, dispatch-Answered, dispatch_never_internal}
use cuebooth.Api.Connection.{
  ClientConn, StatusCode, going_away, Frame, new_client_conn, handle, surface_press, remove_key,
}
use cuebooth.Api.Connection.Holds.{press_tracked}
use cuebooth.Api.Surface.{SurfaceManager, SurfaceKeyFrame, SurfaceLayoutFrame, in_bounds}
use cuebooth.Api.RateLimit.{RateLimiter, new_rate_limiter}
use cuebooth.Api.RateLimit.Budget
use cuebooth.Api.RateLimit.Budget.{permits_bounded, last_call, refused_early}
use cuebooth.Chat.Restream.{
  needs_auth, err, authorized, valid, second, Restream, unknown_state, no_tokens,
}
use cuebooth.Chat.Restream.Exchanges.{access_token, usable_token, Exchange, complete}
use cuebooth.Chat.Restream.Url.{
  Attempt, url, is_refused, retried, mint, fetch_with, fetch, is_unauthorized,
}
use cuebooth.Chat.Restream.Refusals.{url_holds_off}
use cuebooth.Chat.Restream.Logins.{complete_once}

abbrev button : ActionRef
button = record {
  companion_button = bytes "7/0/2";
  osc_command = [];
  osc_value = record { value = 0; set = false };
}

abbrev presets : PresetsConfig
presets = record {
  camera = (bytes "main", (bytes "stage", button) ∷ []) ∷ [];
  scene = [];
  audio = record { mute = []; unmute = [] };
  streaming = (bytes "start", button) ∷ [];
  recording = [];
  slides = [];
}

presets_valid : validate presets ≡ none
unfolding validate validate_ref validate_table validate_cameras validate_verbs location_error
    contains parse_location split atoi trim_space
presets_valid = refl

validate-AllResolved_example : AllResolved Routed presets
validate-AllResolved_example = validate-AllResolved presets presets_valid

-- A raw value is its string.
abbrev strings : Json Bytes
strings = record { as_string = λ s. some s; as_mute = λ s. none }

abbrev command : CmdFrame Bytes
command = record {
  id = bytes "c1";
  target = bytes "camera";
  action = bytes "preset";
  value = bytes "stage";
  camera_id = [];
}

dispatch-Answered_example : Answered (λ l. true) (dispatch strings presets (λ l. true) command)
dispatch-Answered_example = dispatch-Answered strings presets (λ l. true) command

dispatch_never_internal_example : (dispatch strings presets (λ l. true) command).1 ≢ nak internal
dispatch_never_internal_example =
    dispatch_never_internal strings presets (λ l. true) command presets_valid

abbrev manager : SurfaceManager
manager = record { rows = 2; cols = 2; bitmap_size = 72; seq = 0; keys = [] }

abbrev blank : Frame → Bytes
blank f = []

abbrev key_bytes : SurfaceKeyFrame → Bytes
key_bytes f = f.color

abbrev layout_bytes : SurfaceLayoutFrame → Bytes
layout_bytes l = []

abbrev no_dispatch : CmdFrame Bytes → Reply
no_dispatch c = nak unknown_target

-- Companion takes presses, and no releases.
abbrev latched : ℕ → Bool → Bool
latched key down = down

press_tracked_example :
    ((handle blank key_bytes layout_bytes no_dispatch latched
        (some manager)
        new_client_conn
        (surface_press (some (some (pos 3), some true)))).0.held_surface_keys
      ≡ 3 ∷ remove_key 3 new_client_conn.held_surface_keys)
    × ((handle blank key_bytes layout_bytes no_dispatch latched
          (some manager)
          new_client_conn
          (surface_press (some (some (pos 3), some false)))).0.held_surface_keys
        ≡ (if latched 3 false
            then remove_key 3 new_client_conn.held_surface_keys
            else new_client_conn.held_surface_keys))
unfolding in_bounds
press_tracked_example =
    press_tracked blank key_bytes layout_bytes no_dispatch latched (some manager) new_client_conn
      manager (pos 3) 3 refl refl

permits_bounded_example :
    (Budget.run (new_rate_limiter 2 10) (5 ∷ 6 ∷ 7 ∷ [])).1 * 10 + 5
    ≤ 2 * 10 + last_call 5 (6 ∷ 7 ∷ [])
permits_bounded_example =
    permits_bounded 2 10 5 (6 ∷ 7 ∷ []) (omega arith) (omega arith) (omega arith, (omega arith, tt))

abbrev spent : RateLimiter
spent = record { interval = 10; burst = 2; tokens = 0; last = 5 }

abbrev provider : Restream
provider = record {
  tok = no_tokens;
  pending = (bytes "s", record { expires = 100; seq = 1 }) ∷ [];
  pending_seq = 1;
  refused_until = 0;
  gen = 0;
  token_calls = 0;
  stored = no_tokens;
}

abbrev exchange : Exchange
exchange = record { received = 60; answer = none; written = true }

complete_once_example :
    ((complete
        (complete provider (bytes "c") (bytes "s") 50 exchange).0
        (bytes "d")
        (bytes "s")
        70
        exchange).1
      ≡ some unknown_state)
    × ((complete
          (complete provider (bytes "c") (bytes "s") 50 exchange).0
          (bytes "d")
          (bytes "s")
          70
          exchange).0.tok
        ≡ (complete provider (bytes "c") (bytes "s") 50 exchange).0.tok)
complete_once_example =
    complete_once provider (bytes "c") (bytes "s") 50 exchange (bytes "d") 70 exchange refl refl

abbrev connected : Restream
connected = record provider {
  tok = record {
    access_token = bytes "a";
    refresh_token = bytes "r";
    access_expiry = 3600 * second;
    refresh_expiry = 0;
    scope = [];
  };
}

-- Restream says that the application lacks the permission.
abbrev out_of_scope : Attempt
out_of_scope = record {
  asked = 60;
  held = 60;
  exchange = exchange;
  webchat = some (record { status = 403; error_name = bytes "insufficient_scope"; body = none });
}

url_holds_off_example :
    ((url connected out_of_scope out_of_scope 70).1 ≡ err needs_auth)
    × (authorized (url connected out_of_scope out_of_scope 70).0 80 ≡ false)
unfolding retried mint access_token usable_token authorized valid fetch_with fetch is_unauthorized
    is_refused
url_holds_off_example = url_holds_off connected out_of_scope out_of_scope 70 80 refl (omega arith)

abbrev shut_down : StatusCode × Bytes × Bool
shut_down = (going_away, bytes "server shutting down", false)

abbrev closed_conn : ClientConn
closed_conn = record new_client_conn { closing = some shut_down }
