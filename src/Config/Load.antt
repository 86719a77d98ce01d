-- ===== src/Config/Load.antt =====
-- server/internal/config/config.go: Load, with its defaults and checks. The file, toml.Decode, the
-- environment and path/filepath are parameters; the warnings are what is logged for unknown keys.
pub mod Checked
use cuebooth.Prelude.{
  Bool, true, false, not, ◌&&◌, ◌||◌, Option, none, some, List, [], ◌∷◌, if◌then◌else◌, Bytes, pos,
}
use cuebooth.Bytes.{bytes, equal}
use cuebooth.Config.Satellite.{SatelliteConfig}
use cuebooth.Config.Satellite
use cuebooth.Config.Chat.{ChatConfig, Url, is_blank}
use cuebooth.Config.Chat
use cuebooth.Config.Presets.{PresetsConfig}
use cuebooth.Config.Presets

pub record ServerConfig : Type 0 where
  pub listen : Bytes

pub record CompanionConfig : Type 0 where
  pub base_url : Bytes
  pub satellite : SatelliteConfig

pub record Config : Type 0 where
  pub server : ServerConfig
  pub companion : CompanionConfig
  pub chat : ChatConfig
  pub presets : PresetsConfig

pub data Error : Type 0 where
  unreadable unparsable no_listen no_base_url : Error
  satellite_error : Satellite.Error → Error
  chat_error : Chat.Error → Error
  presets_error : Presets.Error → Error

pub data Loaded : Type 0 where
  loaded : Config → Loaded
  failed : Error → Loaded

abbrev pub no_presets : PresetsConfig
no_presets = record {
  camera = [];
  scene = [];
  audio = record { mute = []; unmute = [] };
  streaming = [];
  recording = [];
  slides = [];
}

unfoldable pub defaults : Config
defaults = record {
  server = record { listen = bytes "0.0.0.0:7878" };
  companion = record {
    base_url = bytes "http://localhost:8000";
    satellite = record {
      addr = bytes "localhost:16622";
      device_id = bytes "cuebooth";
      rows = pos 4;
      cols = pos 8;
      bitmap_size = pos 72;
    };
  };
  chat = record {
    provider = [];
    client_id = [];
    client_secret = [];
    public_url = [];
    token_file = bytes "chat-token.json";
  };
  presets = no_presets;
}

-- `decodedTables`
unfoldable pub is_decoded_table : Bytes → Bool
is_decoded_table name =
    equal name (bytes "server")
    || equal name (bytes "companion")
    || equal name (bytes "chat")
    || equal name (bytes "presets")

-- A key is its parts.
unfoldable pub warnable_key : List Bytes → Bool
warnable_key [] = true
warnable_key (table ∷ []) = true
warnable_key (table ∷ part ∷ parts) = is_decoded_table table

unfoldable pub warnings : List (List Bytes) → List (List Bytes)
warnings [] = []
warnings (key ∷ keys) = let rest = warnings keys in if warnable_key key then key ∷ rest else rest

abbrev pub or_else : Option Error → Option Error → Option Error
or_else (some e) later = some e
or_else none later = later

abbrev pub map_error {ℓ} : {E : Type ℓ} → (E → Error) → Option E → Option Error
map_error f none = none
map_error f (some e) = some (f e)

module _ (parse : Bytes → Option Url) where
  unfoldable pub validate : Config → Option Error
  validate c =
      if is_blank c.server.listen
      then some no_listen
      else if is_blank c.companion.base_url
      then some no_base_url
      else or_else (map_error satellite_error (Satellite.validate c.companion.satellite)) (
          or_else (map_error chat_error (Chat.validate parse c.chat))
            (map_error presets_error (Presets.validate c.presets)))

  module _ (decode : Bytes → Config → Option (Config × List (List Bytes))) (secret_env : Bytes)
      (is_abs : Bytes → Bool) (dir : Bytes → Bytes) (join : Bytes → Bytes → Bytes) where
    unfoldable pub with_secret : ChatConfig → ChatConfig
    with_secret c = if is_blank c.client_secret then record c { client_secret = secret_env } else c

    unfoldable pub with_token_file : Bytes → ChatConfig → ChatConfig
    with_token_file path c =
        if not (is_blank c.token_file) && not (is_abs c.token_file)
        then record c { token_file = join (dir path) c.token_file }
        else c

    unfoldable pub checked : Config → Loaded
    checked c = elim (validate c) [ none ↦ loaded c | some e ↦ failed e ]

    -- From the decoded file on; the keys are those that md.Undecoded gives.
    unfoldable pub load_decoded :
        Bytes → Option (Config × List (List Bytes)) → Loaded × List (List Bytes)
    load_decoded path none = (failed unparsable, [])
    load_decoded path (some (c, undecoded)) = (
      checked (record c { chat = with_token_file path (with_secret c.chat) }),
      warnings undecoded,
    )

    -- Load, with what os.ReadFile gave: the result and the keys that are warned of.
    unfoldable pub load : Bytes → Option Bytes → Loaded × List (List Bytes)
    load path none = (failed unreadable, [])
    load path (some data_read) = load_decoded path (decode data_read defaults)
