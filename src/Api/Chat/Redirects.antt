-- ===== src/Api/Chat/Redirects.antt =====
-- chat.go's redirect of a start request to the address that the platform will return to.
use cuebooth.Prelude.{
  ℕ, ◌≡◌, refl, Bool, true, false, Option, none, some, ◌++◌, Bytes, Bool-cases, inl, inr,
}
use cuebooth.Bytes.{equal_fold, to_lower}
use cuebooth.Bytes.Equal.{equal_self}
use cuebooth.State.{State}
use cuebooth.State.Json.{Json, Object}
use cuebooth.Config.Chat.{Url, ChatConfig, primary, is_blank, disabled, validate}
use cuebooth.Config.Chat.Hosts.{Serves, validate-Serves}
use cuebooth.Api.Chat.{
  Provider, Request, Server, redirect, is_get, any_host, chat_site_allowed, chat_host_allowed,
  chat_auth_path, chat_auth_public_redirect, is_at, serve_chat_auth_start,
}

equal_fold_self : (s : Bytes) → equal_fold s s ≡ true
unfolding equal_fold
equal_fold_self s = equal_self (to_lower s)

module _ (parse : Bytes → Option Url) where
  -- Where a start request is sent: nowhere at the host of the first address, where chat answers it,
  -- and to the first address's start route from any other host.
  unfoldable pub IsSettled : ChatConfig → Url → Bytes → Request → Bool → Type 0
  IsSettled c first target follow true =
      (chat_auth_public_redirect c.public_url parse follow ≡ none)
      × (chat_host_allowed c.public_url parse follow ≡ true)
  IsSettled c first target follow false =
      chat_auth_public_redirect c.public_url parse follow ≡ some target

  only_target :
      (c : ChatConfig) (r : Request) (target : Bytes)
      → chat_auth_public_redirect c.public_url parse r ≡ some target
      → target ≡ primary c.public_url ++ chat_auth_path
  unfolding chat_auth_public_redirect
  only_target c r target e = elim (Bool-cases (is_blank (primary c.public_url))) [
    | inl blank ↦ cc (rw blank at e)
    | inr given ↦ elim (Bool-cases (is_at c.public_url parse (parse (primary c.public_url)) r)) [
      | inl here ↦ cc (rw (given, here) at e)
      | inr away ↦ cc (rw (given, away) at e)
    ]
  ]

  first_settles :
      (c : ChatConfig) (r away : Request) (target : Bytes) (v : Serves parse c)
      → chat_auth_public_redirect c.public_url parse away ≡ some target
      → IsSettled c v.first target r (equal_fold v.first.host r.host)
  unfolding chat_auth_public_redirect chat_host_allowed any_host IsSettled
  first_settles c r away target v e = elim (Bool-cases (equal_fold v.first.host r.host)) [
    | inl here ↦ rw here (
      elim (Bool-cases (is_blank (primary c.public_url))) [
        | inl blank ↦ rw blank refl
        | inr given ↦ rw (given, v.primary_parsed, here) refl
      ],
      rw (chat_host_allowed, v.first_host, any_host, here) refl,
    )
    | inr there ↦ rw there (elim (Bool-cases (is_blank (primary c.public_url))) [
      | inl blank ↦ cc (rw blank at e)
      | inr given ↦ rw (given, v.primary_parsed, there, only_target c away target e) refl
    ])
  ]

  module _ {P : Type 0} (provider : Provider P) (to_map : State → Option Object)
      (deep_equal : Json → Json → Bool) where
    -- Under an enabled and checked chat table, a GET of the start route that another site did not
    -- send, at an address other than the first one, is redirected to the start route of the first
    -- address, which spends nothing of the budget and changes nothing. A request that follows it is
    -- redirected no more exactly if its Host is, up to case, the host that the first address has as
    -- written, and then its host passes the check of the other two routes too; from any other Host,
    -- a default port that a browser leaves out among them, it is sent to the same place again.
    pub start_settles :
        (c : ChatConfig) (s : Server P) (r follow : Request) (target : Bytes) (now : ℕ)
        → disabled c ≡ false
        → validate parse c ≡ none
        → is_get r ≡ true
        → chat_site_allowed r ≡ true
        → chat_auth_public_redirect c.public_url parse r ≡ some target
        → (first : Url) × (parse (primary c.public_url) ≡ some first)
          × (target ≡ primary c.public_url ++ chat_auth_path)
          × (serve_chat_auth_start c.public_url parse provider to_map deep_equal s r now
              ≡ (s, redirect target))
          × IsSettled c first target follow (equal_fold first.host follow.host)
    unfolding serve_chat_auth_start
    start_settles c s r follow target now on e get site away =
        let v = validate-Serves parse c on e in
        (
          v.first,
          v.primary_parsed,
          only_target c r target away,
          rw (get, site, away) refl,
          first_settles c follow r target v away,
        )
