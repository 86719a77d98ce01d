-- ===== src/Config/Chat.antt =====
-- server/internal/config/config.go: the [chat] table, the addresses that public_url names, and their
-- check. net/url's Parse is a parameter. An error is the return that gives it, without the text.
pub mod Hosts
use cuebooth.Prelude.{
  ℕ, Bool, true, false, not, ◌&&◌, ◌||◌, Option, none, some, List, [], ◌∷◌, ◌++◌, ◌==◌,
  if◌then◌else◌, Bytes,
}
use cuebooth.Bytes.{bytes, equal, to_lower, trim_space, trim_right}

-- What the source reads of a *url.URL.
pub record Url : Type 0 where
  pub scheme : Bytes
  pub host : Bytes
  pub path : Bytes

pub record ChatConfig : Type 0 where
  pub provider : Bytes
  pub client_id : Bytes
  pub client_secret : Bytes
  pub public_url : List Bytes
  pub token_file : Bytes

pub data Error : Type 0 where
  unsupported_provider no_client_id no_client_secret no_public_url : Error
  empty_url not_a_url not_absolute has_path : Error

-- What toml hands to UnmarshalTOML: a string, an array, of whose items those that are strings are
-- `some`, or another value.
pub data TomlValue : Type 0 where
  text : Bytes → TomlValue
  array : List (Option Bytes) → TomlValue
  other : TomlValue

-- `append` to the list that has been read.
all_text : List (Option Bytes) → List Bytes → Option (List Bytes)
all_text [] out = some out
all_text (none ∷ items) out = none
all_text (some s ∷ items) out = all_text items (out ++ s ∷ [])

-- UnmarshalTOML: the new list, or the error.
unfoldable pub unmarshal_toml : TomlValue → Option (List Bytes)
unfolding all_text
unmarshal_toml (text s) = some (s ∷ [])
unmarshal_toml (array items) = all_text items []
unmarshal_toml other = none

-- strings.TrimRight(raw, "/")
unfoldable pub trim_slashes : Bytes → Bytes
trim_slashes s = trim_right (λ c. c == 47) s

unfoldable pub primary : List Bytes → Bytes
primary [] = []
primary (raw ∷ urls) = trim_slashes raw

abbrev pub callback_path : Bytes
callback_path = bytes "/chat/auth/callback"

unfoldable pub redirect_uri : ChatConfig → Bytes
redirect_uri c = primary c.public_url ++ callback_path

-- strings.ToLower(strings.TrimSpace(c.Provider))
unfoldable pub provider_name : ChatConfig → Bytes
provider_name c = to_lower (trim_space c.provider)

unfoldable pub disabled : ChatConfig → Bool
disabled c =
    let name = provider_name c in
    equal name []
    || equal name (bytes "off")
    || equal name (bytes "disabled")
    || equal name (bytes "none")

abbrev pub is_blank : Bytes → Bool
is_blank [] = true
is_blank (c ∷ s) = false

module _ (parse : Bytes → Option Url) where
  abbrev pub host_of : Option Url → List Bytes → List Bytes
  host_of none hosts = hosts
  host_of (some u) hosts = if is_blank u.host then hosts else u.host ∷ hosts

  unfoldable pub hosts : List Bytes → List Bytes
  hosts [] = []
  hosts (raw ∷ urls) = host_of (parse (trim_slashes raw)) (hosts urls)

  unfoldable pub validate_parsed : Option Url → Option Error
  validate_parsed none = some not_a_url
  validate_parsed (some u) =
      if not (equal u.scheme (bytes "http")) && not (equal u.scheme (bytes "https"))
        || is_blank u.host
      then some not_absolute
      else if not (is_blank u.path)
      then some has_path
      else none

  unfoldable pub validate_url : Bytes → Option Error
  validate_url raw =
      if is_blank raw then some empty_url else validate_parsed (parse (trim_slashes raw))

  abbrev or_else : Option Error → Option Error → Option Error
  or_else (some e) later = some e
  or_else none later = later

  -- The loop over the addresses.
  unfoldable pub validate_urls : List Bytes → Option Error
  validate_urls [] = none
  validate_urls (raw ∷ urls) = or_else (validate_url raw) (validate_urls urls)

  unfoldable pub validate_enabled : ChatConfig → Option Error
  validate_enabled c =
      if not (equal (provider_name c) (bytes "restream"))
      then some unsupported_provider
      else if is_blank c.client_id
      then some no_client_id
      else if is_blank c.client_secret
      then some no_client_secret
      else elim c.public_url [ [] ↦ some no_public_url | raw ∷ urls ↦ validate_urls (raw ∷ urls) ]

  unfoldable pub validate : ChatConfig → Option Error
  validate c = if disabled c then none else validate_enabled c
