-- ===== src/Config/Chat/Hosts.antt =====
-- config.go: the addresses that a checked [chat] table names.
use cuebooth.Prelude.{
  ◌⊎◌, suc, ◌≡◌, refl, ap, Bool, true, false, not, ◌&&◌, ◌||◌, Option, none, some, List, [], ◌∷◌,
  Bytes, length, Bool-cases, Option-cases, inl, inr,
}
use cuebooth.Bytes.{bytes, equal}
use cuebooth.Config.Chat.{
  Url, ChatConfig, trim_slashes, primary, disabled, provider_name, is_blank, hosts, validate_parsed,
  validate_url, validate_urls, validate_enabled, validate,
}

-- An address that parses, with a host and no path.
pub record IsAddress (u : Url) : Type 0 where
  pub has_host : is_blank u.host ≡ false
  pub no_path : is_blank u.path ≡ true
  pub web : (equal u.scheme (bytes "http") || equal u.scheme (bytes "https")) ≡ true

web_scheme :
    (a b blank : Bool) → (not a && not b || blank) ≡ false → ((a || b) ≡ true) × (blank ≡ false)
web_scheme true b blank e = (refl, e)
web_scheme false true blank e = (refl, e)
web_scheme false false blank e = cc

module _ (parse : Bytes → Option Url) where
  parsed-IsAddress : (u : Url) → validate_parsed parse (some u) ≡ none → IsAddress u
  unfolding validate_parsed
  parsed-IsAddress u e =
      let bad =
        not (equal u.scheme (bytes "http")) && not (equal u.scheme (bytes "https"))
        || is_blank u.host in
      elim (Bool-cases bad) [
        | inl relative ↦ cc (rw relative at e)
        | inr absolute ↦ elim (Bool-cases (is_blank u.path)) [
          | inl no_path ↦
              let (web, has_host) = web_scheme _ _ _ absolute in
              record { has_host = has_host; no_path = no_path; web = web }
          | inr path ↦ cc (rw (absolute, path) at e)
        ]
      ]

  url-IsAddress :
      (raw : Bytes)
      → validate_url parse raw ≡ none
      → (u : Url) × (parse (trim_slashes raw) ≡ some u) × IsAddress u
  unfolding validate_url validate_parsed
  url-IsAddress raw e = elim (Bool-cases (is_blank raw)) [
    | inl blank ↦ cc (rw blank at e)
    | inr given ↦ elim (Option-cases (parse (trim_slashes raw))) [
      | inl bad ↦ cc (rw (given, bad) at e)
      | inr (u, good) ↦ (u, good, parsed-IsAddress u (rw (given, good) at e))
    ]
  ]

  urls_split :
      (raw : Bytes) (urls : List Bytes)
      → validate_urls parse (raw ∷ urls) ≡ none
      → (validate_url parse raw ≡ none) × (validate_urls parse urls ≡ none)
  unfolding validate_urls
  urls_split raw urls e = elim (Option-cases (validate_url parse raw)) [
    | inl fine ↦ (fine, rw fine at e)
    | inr (x, bad) ↦ cc (rw bad at e)
  ]

  -- No address is passed over.
  length-hosts :
      (urls : List Bytes)
      → validate_urls parse urls ≡ none
      → length (hosts parse urls) ≡ length urls
  unfolding hosts
  length-hosts [] e = refl
  length-hosts (raw ∷ urls) e =
      let (first, rest) = urls_split raw urls e in
      let (u, good, a) = url-IsAddress raw first in
      rw (good, a.has_host) (ap suc (length-hosts urls rest))

  -- What an enabled and checked table gives the chat routes.
  pub record Serves (c : ChatConfig) : Type 0 where
    pub raw : Bytes
    pub urls : List Bytes
    pub first : Url
    pub given : c.public_url ≡ raw ∷ urls
    pub primary_parsed : parse (primary c.public_url) ≡ some first
    pub address : IsAddress first
    pub first_host : hosts parse c.public_url ≡ first.host ∷ hosts parse urls
    pub none_missed : length (hosts parse c.public_url) ≡ length c.public_url
    pub secret : is_blank c.client_secret ≡ false

  given-Serves :
      (c : ChatConfig) (raw : Bytes) (urls : List Bytes)
      → c.public_url ≡ raw ∷ urls
      → validate_urls parse (raw ∷ urls) ≡ none
      → is_blank c.client_secret ≡ false
      → Serves c
  unfolding primary hosts
  given-Serves c raw urls given e secret =
      let (u, good, a) = url-IsAddress raw (urls_split raw urls e).0 in
      record {
        raw = raw;
        urls = urls;
        first = u;
        given = given;
        primary_parsed = rw given good;
        address = a;
        first_host = rw (given, good, a.has_host) refl;
        none_missed = rw given (length-hosts (raw ∷ urls) e);
        secret = secret;
      }

  list_cases :
      (l : List Bytes) → (l ≡ []) ⊎ ((raw : Bytes) × (urls : List Bytes) × (l ≡ raw ∷ urls))
  list_cases [] = inl refl
  list_cases (raw ∷ urls) = inr (raw, urls, refl)

  -- A chat table that is not disabled and passes the check has a client secret and a first address
  -- that parses to an http or https URL with a host and no path; the hosts that chat answers are one
  -- for each address, that of the first one first.
  pub validate-Serves : (c : ChatConfig) → disabled c ≡ false → validate parse c ≡ none → Serves c
  unfolding validate validate_enabled
  validate-Serves c on e = elim (Bool-cases (equal (provider_name c) (bytes "restream"))) [
    | inr other ↦ cc (rw (on, other) at e)
    | inl restream ↦ elim (Bool-cases (is_blank c.client_id)) [
      | inl no_id ↦ cc (rw (on, restream, no_id) at e)
      | inr id ↦ elim (Bool-cases (is_blank c.client_secret)) [
        | inl no_secret ↦ cc (rw (on, restream, id, no_secret) at e)
        | inr secret ↦ elim (list_cases c.public_url) [
          | inl none_given ↦ cc (rw (on, restream, id, secret, none_given) at e)
          | inr (raw, urls, given) ↦
              given-Serves c raw urls given (rw (on, restream, id, secret, given) at e) secret
        ]
      ]
    ]
  ]
