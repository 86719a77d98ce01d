-- ===== src/Command.antt =====
-- server/cmd/cuebooth-server/main.go: run up to the server's start, and webClientStatus. The libraries
-- that the parts take as arguments are arguments here, and so are what the configuration file and the
-- token file hold. Signals, flags, the Windows service and the log lines but one are left out.
pub mod Starts
use cuebooth.Prelude.{◌≡◌, Bool, true, false, Option, none, some, List, [], if◌then◌else◌, Bytes}
use cuebooth.Bytes.{bytes}
use cuebooth.Chat.Restream.{Tokens, Restream}
use cuebooth.Chat.Restream.Start.{Settings, Started, new_restream}
use cuebooth.Chat.Restream.Start as Provider
use cuebooth.Chat.TokenStore.{Read}
use cuebooth.Companion.Client.Calls.{Client, New, created, rejected, new_client}
use cuebooth.Companion.Client.Calls as Client
use cuebooth.Companion.Satellite.{Surface, normalize}
use cuebooth.Config.Chat.{ChatConfig, Url, redirect_uri}
use cuebooth.Config.Chat
use cuebooth.Config.Load.{Config, Loaded, load}
use cuebooth.Config.Load
use cuebooth.Config.Satellite.{SatelliteConfig}
use cuebooth.Config.Satellite
use cuebooth.Config.Satellite.Registers.{satellite_config}

pub data Error : Type 0 where
  load_error : Load.Error → Error
  companion_error : Client.NewError → Error
  chat_error : Provider.StartError → Error

-- What NewServer is handed.
pub record Parts : Type 0 where
  pub client : Client
  pub satellite : Option Surface
  pub chat : Option Restream

pub data Ran : Type 0 where
  serving : Parts → Ran
  failed : Error → Ran

unfoldable pub satellite_of : SatelliteConfig → Option Surface
satellite_of s = if Satellite.disabled s then none else some (normalize (satellite_config s))

unfoldable pub settings_of : ChatConfig → Settings
settings_of c = record {
  client_id = c.client_id;
  client_secret = c.client_secret;
  redirect_uri = redirect_uri c;
  token_file = c.token_file;
}

unfoldable pub with_provider : Client → Option Surface → Started → Ran
with_provider client surface (Started.started r) =
    serving (record { client = client; satellite = surface; chat = some r })
with_provider client surface (Started.refused e) = failed (chat_error e)

-- Whether a build holds a web client is logged at this level.
pub data Level : Type 0 where
  info warn : Level

pub web_client_status : Bool → Level × Bytes
web_client_status true = (info, bytes "web client bundled; browse to the listen address to use it")
web_client_status false =
    (warn, bytes "no web client bundled; run `make web` before `make build` to include one")

module _ (parse : Bytes → Option Url) (decode_tokens : Bytes → Option Tokens) where
  unfoldable pub with_client : Config → Read → New → Ran
  with_client c tokens (rejected e) = failed (companion_error e)
  with_client c tokens (created client) =
      let surface = satellite_of c.companion.satellite in
      if Chat.disabled c.chat
      then serving (record { client = client; satellite = surface; chat = none })
      else with_provider client surface (new_restream (settings_of c.chat) decode_tokens tokens)

  unfoldable pub with_config : Read → Loaded → Ran
  with_config tokens (Loaded.failed e) = failed (load_error e)
  with_config tokens (Loaded.loaded c) =
      with_client c tokens (new_client parse c.companion.base_url [])

  module _ (decode : Bytes → Config → Option (Config × List (List Bytes))) (secret_env : Bytes)
      (is_abs : Bytes → Bool) (dir : Bytes → Bytes) (join : Bytes → Bytes → Bytes) where
    -- run, up to srv.Run.
    unfoldable pub run : Bytes → Option Bytes → Read → Ran
    run path file tokens =
        with_config tokens (load parse decode secret_env is_abs dir join path file).0
