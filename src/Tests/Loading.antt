-- ===== src/Tests/Loading.antt =====
-- Concrete inputs for the theorems on the configuration.
use cuebooth.Prelude.{
  ◌≤◌, ◌≡◌, ◌⊎◌, refl, Bool, true, false, Option, none, some, List, [], ◌∷◌, ◌++◌, Bytes, pos, ◌==◌,
}
use cuebooth.Bytes.{
  bytes, to_lower, trim_space, trim_left, trim_right, is_space, contains, contains_any, print,
}
use cuebooth.Companion.Line.{parse_satellite_line, arg}
use cuebooth.Companion.Satellite.{keys_total, keys_per_row, or_default, register_line}
use cuebooth.Companion.Satellite as Surface
use cuebooth.Config.Satellite.{
  SatelliteConfig, disabled, separators, from_bits, product, is_too_many, is_bad_size, validate,
  validate_enabled,
}
use cuebooth.Config.Satellite
use cuebooth.Config.Satellite.Registers.{satellite_config, validate-register_line}
use cuebooth.Config.Chat.{
  Url, ChatConfig, primary, hosts, trim_slashes, provider_name, validate_parsed, validate_url,
  validate_urls,
}
use cuebooth.Config.Chat
use cuebooth.Config.Presets
use cuebooth.Config.Presets.{validate_cameras, validate_table, validate_verbs}
use cuebooth.Chat.TokenStore.{missing}
use cuebooth.Command.{run, serving, satellite_of}
use cuebooth.Command.Starts.{provider_of, run_starts}
use cuebooth.Companion.Client.Calls.{Client, created, new_client, configure_all}
use cuebooth.Config.Load.{
  Config, loaded, defaults, load, load_decoded, checked, with_secret, with_token_file,
}
use cuebooth.Config.Load
use cuebooth.Config.Load.Checked.{IsChecked, IsPlaced, load-IsChecked}

-- A table that leaves the rows at their default.
abbrev satellite : SatelliteConfig
satellite = record {
  addr = bytes "companion:16622";
  device_id = bytes "booth-1";
  rows = pos 0;
  cols = pos 256;
  bitmap_size = pos 72;
}

satellite_on : Satellite.disabled satellite ≡ false
unfolding Satellite.disabled to_lower trim_space trim_left trim_right is_space
satellite_on = refl

satellite_valid : Satellite.validate satellite ≡ none
unfolding Satellite.validate Satellite.validate_enabled Satellite.disabled to_lower trim_space
    trim_left trim_right is_space contains_any contains is_too_many product from_bits is_bad_size
satellite_valid = refl

no_backslash : contains 92 satellite.device_id ≡ false
unfolding contains
no_backslash = refl

validate-register_line_example :
    let c = Surface.normalize (satellite_config satellite) in
    let (cmd, args) = parse_satellite_line (register_line c) in
    (cmd ≡ bytes "ADD-DEVICE")
    × (arg (bytes "DEVICEID") args ≡ some (or_default satellite.device_id (bytes "cuebooth")))
    × (arg (bytes "KEYS_TOTAL") args ≡ some (print (keys_total c)))
    × (arg (bytes "KEYS_PER_ROW") args ≡ some (print (keys_per_row c)))
    × (keys_total c ≤ 2048)
    × ((satellite.rows ≡ pos 0) ⊎ (satellite.cols ≡ pos 0) ⊎ (keys_total c ≤ 256))
validate-register_line_example =
    validate-register_line satellite satellite_on satellite_valid no_backslash

-- The zero rows stand for four: more keys than the limit.
past_limit : keys_total (Surface.normalize (satellite_config satellite)) ≡ 1024
unfolding satellite_config Surface.normalize
past_limit = refl

-- Every address is one of this machine.
abbrev parse : Bytes → Option Url
parse raw = some (record { scheme = bytes "http"; host = bytes "localhost"; path = [] })

-- A file that sets nothing, at /etc/cuebooth.toml.
abbrev decode : Bytes → Config → Option (Config × List (List Bytes))
decode file c = some (c, [])

abbrev is_abs : Bytes → Bool
is_abs [] = false
is_abs (c ∷ s) = c == 47

abbrev dir : Bytes → Bytes
dir path = path

abbrev join : Bytes → Bytes → Bytes
join path file = path ++ (47 ∷ file)

join_abs : (path file : Bytes) → is_abs path ≡ true → is_abs (join (dir path) file) ≡ true
join_abs [] file e = cc
join_abs (c ∷ path) file e = e

abbrev config_path : Bytes
config_path = bytes "/etc/cuebooth.toml"

abbrev loaded_config : Config
loaded_config = record defaults {
  chat = record defaults.chat { token_file = config_path ++ bytes "/chat-token.json" };
}

loads : (load parse decode [] is_abs dir join config_path (some [])).0 ≡ loaded loaded_config
unfolding load load_decoded checked Load.validate defaults with_secret with_token_file
    Satellite.validate Satellite.validate_enabled Satellite.disabled to_lower trim_space trim_left
    trim_right is_space contains_any contains is_too_many product from_bits is_bad_size
    Chat.validate Chat.disabled provider_name Presets.validate validate_cameras validate_table
    validate_verbs
loads = refl

load-IsChecked_example : IsChecked parse loaded_config × IsPlaced is_abs loaded_config.chat
load-IsChecked_example =
    load-IsChecked parse decode [] is_abs dir join join_abs config_path (some []) loaded_config refl
      loads

abbrev client : Client
client = record { base_url = bytes "http://localhost:8000"; max_retries = 2; backoff = 100000000 }

made : new_client parse loaded_config.companion.base_url [] ≡ created client
unfolding new_client configure_all defaults trim_right trim_left
made = refl

run_starts_example :
    run parse (λ text. none) decode [] is_abs dir join config_path (some []) missing
    ≡ serving (record {
      client = client;
      satellite = satellite_of loaded_config.companion.satellite;
      chat = provider_of (λ text. none) missing loaded_config.chat;
    })
run_starts_example =
    run_starts parse (λ text. none) decode [] is_abs dir join config_path (some []) missing
      loaded_config client loads made
