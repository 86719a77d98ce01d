-- ===== src/Command/Starts.antt =====
-- main.go: a configuration that was loaded starts the server.
use cuebooth.Prelude.{
  if◌then◌else◌, ◌≡◌, refl, Bool, false, ◌||◌, Option, none, some, List, [], ◌∷◌, ◌++◌, Bytes,
  Bool-cases, inl, inr,
}
use cuebooth.Bytes.{bytes, equal}
use cuebooth.Chat.Restream.{Tokens, Restream}
use cuebooth.Chat.Restream.Start.{new_restream, holding, resumed}
use cuebooth.Chat.TokenStore.{Read, load}
use cuebooth.Companion.Client.Calls.{Client, created, new_client}
use cuebooth.Config.Chat.{
  ChatConfig, Url, is_blank, disabled, provider_name, validate, validate_enabled, redirect_uri,
  primary, callback_path,
}
use cuebooth.Config.Load.{Config, loaded}
use cuebooth.Config.Load as Load
use cuebooth.Config.Load.Checked.{IsChecked, loaded-IsChecked}
use cuebooth.Command.{
  serving, satellite_of, settings_of, with_provider, with_client, with_config, run,
}

not_equal : (s : Bytes) → is_blank s ≡ false → equal s [] ≡ false
not_equal [] h = cc
not_equal (c ∷ s) h = refl

appended : (s : Bytes) → equal (s ++ callback_path) [] ≡ false
appended [] = refl
appended (c ∷ s) = refl

-- A chat table that is checked and enabled has what NewRestream asks for.
has_settings :
    (parse : Bytes → Option Url) (c : ChatConfig)
    → disabled c ≡ false
    → validate parse c ≡ none
    → ((equal c.client_id [] || equal c.client_secret []) ≡ false)
unfolding validate validate_enabled
has_settings parse c on e = elim (Bool-cases (equal (provider_name c) (bytes "restream"))) [
  | inr other ↦ cc (rw (on, other) at e)
  | inl restream ↦ elim (Bool-cases (is_blank c.client_id)) [
    | inl no_id ↦ cc (rw (on, restream, no_id) at e)
    | inr id ↦ elim (Bool-cases (is_blank c.client_secret)) [
      | inl no_secret ↦ cc (rw (on, restream, id, no_secret) at e)
      | inr secret ↦ rw (not_equal c.client_id id, not_equal c.client_secret secret) refl
    ]
  ]
]

-- The provider that a chat table gives with what its token file holds.
abbrev pub provider_of : (Bytes → Option Tokens) → Read → ChatConfig → Option Restream
provider_of decode_tokens tokens c =
    if disabled c then none else some (holding (resumed (load decode_tokens c.token_file tokens)))

module _ (parse : Bytes → Option Url) (decode_tokens : Bytes → Option Tokens) where
  with_client_starts :
      (c : Config) (tokens : Read) (client : Client)
      → IsChecked parse c
      → with_client parse decode_tokens c tokens (created client)
        ≡ serving (record {
          client = client;
          satellite = satellite_of c.companion.satellite;
          chat = provider_of decode_tokens tokens c.chat;
        })
  unfolding with_client with_provider new_restream settings_of redirect_uri
  with_client_starts c tokens client checked = elim (Bool-cases (disabled c.chat)) [
    | inl off ↦ rw off refl
    | inr on ↦
        rw (on, has_settings parse c.chat on checked.chat, appended (primary c.chat.public_url))
          refl
  ]

  module _ (decode : Bytes → Config → Option (Config × List (List Bytes))) (secret_env : Bytes)
      (is_abs : Bytes → Bool) (dir : Bytes → Bytes) (join : Bytes → Bytes → Bytes) where
    -- Once Load has given a configuration and New has accepted Companion's base URL, run starts the
    -- server whatever the token file holds: with that client, with a surface exactly if the satellite
    -- is not disabled, and with a chat provider exactly if chat is not disabled, which holds the
    -- stored credential, or none where that cannot be read.
    pub run_starts :
        (path : Bytes) (file : Option Bytes) (tokens : Read) (c : Config) (client : Client)
        → (Load.load parse decode secret_env is_abs dir join path file).0 ≡ loaded c
        → new_client parse c.companion.base_url [] ≡ created client
        → run parse decode_tokens decode secret_env is_abs dir join path file tokens
          ≡ serving (record {
            client = client;
            satellite = satellite_of c.companion.satellite;
            chat = provider_of decode_tokens tokens c.chat;
          })
    unfolding run with_config
    run_starts path file tokens c client e made =
        let checked = loaded-IsChecked parse decode secret_env is_abs dir join path file c e in
        rw (e, made) (with_client_starts c tokens client checked)
