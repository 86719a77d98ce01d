-- ===== src/Api/Chat/Guard.antt =====
-- chat.go's guard on /chat/url and the callback, under a configuration that was checked.
use cuebooth.Prelude.{
  ℕ, ◌≡◌, ◌⊎◌, inl, inr, refl, Bool, false, Option, none, some, List, [], Bytes, Bool-cases,
}
use cuebooth.Bytes.{bytes, equal}
use cuebooth.State.{State}
use cuebooth.State.Json.{Json, Object}
use cuebooth.Config.Chat.{Url, ChatConfig, hosts, disabled, validate}
use cuebooth.Config.Chat.Hosts.{Serves, validate-Serves}
use cuebooth.Api.Chat.{
  Provider, Request, Server, Answer, http_error, is_get, any_host, chat_site_allowed,
  chat_host_allowed, chat_guard, serve_chat_url, enter_callback,
}

-- A request that is no GET, that its browser says is another site's, or that names a host which
-- none of the addresses has.
pub data IsForeign (named : List Bytes) (r : Request) : Type 0 where
  not_get : is_get r ≡ false → IsForeign named r
  cross_site : r.sec_fetch_site ≡ bytes "cross-site" → IsForeign named r
  other_host : any_host named r.host ≡ false → IsForeign named r

-- A refusal with 405 or 403.
abbrev pub Refuses : Option Answer → Type 0
Refuses a = (a ≡ some (http_error 405)) ⊎ (a ≡ some (http_error 403))

module _ (parse : Bytes → Option Url) where
  host_refused :
      (c : ChatConfig) (r : Request)
      → Serves parse c
      → any_host (hosts parse c.public_url) r.host ≡ false
      → chat_host_allowed c.public_url parse r ≡ false
  unfolding chat_host_allowed
  host_refused c r v e = rw (chat_host_allowed, v.first_host) (rw v.first_host at e)

  guard-Refuses :
      (c : ChatConfig) (r : Request)
      → Serves parse c
      → IsForeign (hosts parse c.public_url) r
      → Refuses (chat_guard c.public_url parse r)
  unfolding chat_guard chat_site_allowed
  guard-Refuses c r v (not_get e) = rw e (inl refl)
  guard-Refuses c r v (cross_site e) = elim (Bool-cases (is_get r)) [
    | inl get ↦ rw (get, e) (inr refl)
    | inr other ↦ rw other (inl refl)
  ]
  guard-Refuses c r v (other_host e) = elim (Bool-cases (is_get r)) [
    | inr other ↦ rw other (inl refl)
    | inl get ↦ elim (Bool-cases (equal r.sec_fetch_site (bytes "cross-site"))) [
      | inl cross ↦ rw (get, cross) (inr refl)
      | inr same ↦ rw (get, same, host_refused c r v e) (inr refl)
    ]
  ]

  module _ {P : Type 0} (provider : Provider P) (to_map : State → Option Object)
      (deep_equal : Json → Json → Bool) where
    -- Under an enabled and checked chat table, a request that is no GET, that its browser says is
    -- another site's, or whose host is that of none of the configured addresses, is refused with 405
    -- or 403 by /chat/url and by the callback, and leaves the server as it was: the provider is not
    -- asked for a URL, and no slot is taken.
    pub foreign_refused :
        (c : ChatConfig) (s : Server P) (r : Request) (now : ℕ)
        → disabled c ≡ false
        → validate parse c ≡ none
        → IsForeign (hosts parse c.public_url) r
        → (code : ℕ) × ((code ≡ 405) ⊎ (code ≡ 403))
          × (serve_chat_url c.public_url parse provider to_map deep_equal s r now
              ≡ (s, http_error code, []))
          × (enter_callback c.public_url parse provider to_map deep_equal s r
              ≡ (s, some (http_error code)))
    unfolding serve_chat_url enter_callback
    foreign_refused c s r now on e f = elim (guard-Refuses c r (validate-Serves parse c on e) f) [
      | inl g ↦ (405, inl refl, rw (serve_chat_url, g) refl, rw (enter_callback, g) refl)
      | inr g ↦ (403, inr refl, rw (serve_chat_url, g) refl, rw (enter_callback, g) refl)
    ]
