-- ===== src/Config/Load/Checked.antt =====
-- config.go: what a load that succeeds has checked.
use cuebooth.Prelude.{
  ◌≡◌, refl, ◌⊎◌, inl, inr, Bool, true, false, Option, none, some, List, Bytes, Bool-cases,
  Option-cases,
}
use cuebooth.Config.Satellite
use cuebooth.Config.Chat.{ChatConfig, Url, is_blank}
use cuebooth.Config.Chat
use cuebooth.Config.Presets
use cuebooth.Config.Load.{
  Config, Error, loaded, satellite_error, chat_error, presets_error, or_else, map_error, validate,
  with_secret, with_token_file, checked, load_decoded, load, defaults,
}

or_else-none : (a b : Option Error) → or_else a b ≡ none → (a ≡ none) × (b ≡ none)
or_else-none none b e = (refl, e)
or_else-none (some x) b e = cc

map_error-none {ℓ} : {E : Type ℓ} (f : E → Error) (o : Option E) → map_error f o ≡ none → o ≡ none
map_error-none f none e = refl
map_error-none f (some x) e = cc

-- What validate has checked of every table.
pub record IsChecked (parse : Bytes → Option Url) (c : Config) : Type 0 where
  pub listen : is_blank c.server.listen ≡ false
  pub base_url : is_blank c.companion.base_url ≡ false
  pub satellite : Satellite.validate c.companion.satellite ≡ none
  pub chat : Chat.validate parse c.chat ≡ none
  pub presets : Presets.validate c.presets ≡ none

validate-IsChecked :
    (parse : Bytes → Option Url) (c : Config) → validate parse c ≡ none → IsChecked parse c
unfolding validate
validate-IsChecked parse c e = elim (Bool-cases (is_blank c.server.listen)) [
  | inl blank ↦ cc (rw blank at e)
  | inr listen ↦ elim (Bool-cases (is_blank c.companion.base_url)) [
    | inl blank ↦ cc (rw (listen, blank) at e)
    | inr base ↦
        let all = or_else-none _ _ (rw (listen, base) at e) in
        let rest = or_else-none _ _ all.1 in
        record {
          listen = listen;
          base_url = base;
          satellite = map_error-none satellite_error _ all.0;
          chat = map_error-none chat_error _ rest.0;
          presets = map_error-none presets_error _ rest.1;
        }
  ]
]

-- The credential's file does not depend on the working directory.
abbrev pub IsPlaced : (Bytes → Bool) → ChatConfig → Type 0
IsPlaced is_abs c = (is_blank c.token_file ≡ true) ⊎ (is_abs c.token_file ≡ true)

module _ (parse : Bytes → Option Url)
    (decode : Bytes → Config → Option (Config × List (List Bytes))) (secret_env : Bytes)
    (is_abs : Bytes → Bool) (dir : Bytes → Bytes) (join : Bytes → Bytes → Bytes) where
  checked_config :
      (c d : Config)
      → checked parse decode secret_env is_abs dir join c ≡ loaded d
      → (d ≡ c) × IsChecked parse c
  unfolding checked
  checked_config c d e = elim (Option-cases (validate parse c)) [
    | inl fine ↦ (cc (rw (checked, fine) at e), validate-IsChecked parse c fine)
    | inr (x, bad) ↦ cc (rw (checked, bad) at e)
  ]

  pub loaded-IsChecked :
      (path : Bytes) (file : Option Bytes) (c : Config)
      → (load parse decode secret_env is_abs dir join path file).0 ≡ loaded c
      → IsChecked parse c
  unfolding load load_decoded
  loaded-IsChecked path none c e = cc
  loaded-IsChecked path (some data_read) c e = elim (Option-cases (decode data_read defaults)) [
    | inl bad ↦ cc (rw bad at e)
    | inr ((d, undecoded), good) ↦
        let (same, done) = checked_config _ c (rw good at e) in rw same done
  ]

module _ (parse : Bytes → Option Url)
    (decode : Bytes → Config → Option (Config × List (List Bytes))) (secret_env : Bytes)
    (is_abs : Bytes → Bool) (dir : Bytes → Bytes) (join : Bytes → Bytes → Bytes)
    (join_abs : (path file : Bytes)
      → is_abs path ≡ true
      → is_abs (join (dir path) file) ≡ true) where
  placed :
      (path : Bytes) (c : ChatConfig)
      → is_abs path ≡ true
      → IsPlaced is_abs (with_token_file parse decode secret_env is_abs dir join path c)
  unfolding with_token_file
  placed path c abs = elim (Bool-cases (is_blank c.token_file)) [
    | inl blank ↦ rw blank (inl blank)
    | inr named ↦ elim (Bool-cases (is_abs c.token_file)) [
      | inl absolute ↦ rw (named, absolute) (inr absolute)
      | inr relative ↦ rw (named, relative) (inr (join_abs path c.token_file abs))
    ]
  ]

  -- A configuration that Load gives has passed the checks of every table, after the secret from the
  -- environment and the place of the credential's file were put in: that file is unset or has an
  -- absolute path, where the configuration file's own path is absolute and a path joined to the
  -- directory of an absolute one is absolute.
  pub load-IsChecked :
      (path : Bytes) (file : Option Bytes) (c : Config)
      → is_abs path ≡ true
      → (load parse decode secret_env is_abs dir join path file).0 ≡ loaded c
      → IsChecked parse c × IsPlaced is_abs c.chat
  unfolding load load_decoded
  load-IsChecked path none c abs e = cc
  load-IsChecked path (some data_read) c abs e = elim (Option-cases (decode data_read defaults)) [
    | inl bad ↦ cc (rw bad at e)
    | inr ((d, undecoded), good) ↦
        let (same, done) =
          checked_config parse decode secret_env is_abs dir join _ c (rw good at e) in
        rw same (done, placed path (with_secret parse decode secret_env is_abs dir join d.chat) abs)
  ]
