-- ===== src/Api/Chat/Slots.antt =====
-- chat.go's callback slots, over requests of the three routes that interleave.
use cuebooth.Prelude.{
  ℕ, ◌+◌, ◌-◌, ◌≤◌, ◌<◌, ◌≡◌, refl, ap, ◌∙◌, Bool, Option, none, some, List, [], ◌∷◌, ◌++◌, ltb,
  Bytes, arith, length, Bool-cases, Option-cases, inl, inr,
}
use cuebooth.State.{State}
use cuebooth.State.Json.{Json, Object}
use cuebooth.State.Store.{Store}
use cuebooth.Config.Chat.{Url, is_blank}
use cuebooth.Api.RateLimit.{allow}
use cuebooth.Chat.Restream.{Error, missing_scope, needs_auth, ok, err}
use cuebooth.Chat.Restream
use cuebooth.Api.Chat.{
  is_needs_auth, Provider, Request, Server, Answer, is_get, chat_site_allowed, new_server,
  chat_guard, chat_auth_public_redirect, publish_chat_status, answer_url, serve_chat_url,
  answer_start, start_here, serve_chat_auth_start, enter_callback, answer_callback, release_slot,
  finish_callback, then_answer,
}

module _ (public_url : List Bytes) (parse : Bytes → Option Url) {P : Type 0} (provider : Provider P)
    (to_map : State → Option Object) (deep_equal : Json → Json → Bool) where
  -- The server, and the callbacks that hold a slot, after requests of any routes: a callback enters,
  -- and finishes at any later time.
  pub data Reach : Server P → List Request → Type 0 where
    fresh : (chat : P) (store : Store) → Reach (new_server chat store) []
    url_served :
        {s : Server P} {active : List Request} (r : Request) (now : ℕ)
        → Reach s active
        → Reach (serve_chat_url public_url parse provider to_map deep_equal s r now).0 active
    start_served :
        {s : Server P} {active : List Request} (r : Request) (now : ℕ)
        → Reach s active
        → Reach (serve_chat_auth_start public_url parse provider to_map deep_equal s r now).0 active
    entered :
        {s : Server P} {active : List Request} (r : Request)
        → Reach s active
        → (enter_callback public_url parse provider to_map deep_equal s r).1 ≡ none
        → Reach (enter_callback public_url parse provider to_map deep_equal s r).0 (r ∷ active)
    turned_away :
        {s : Server P} {active : List Request} (r : Request) (a : Answer)
        → Reach s active
        → (enter_callback public_url parse provider to_map deep_equal s r).1 ≡ some a
        → Reach (enter_callback public_url parse provider to_map deep_equal s r).0 active
    finished :
        {s : Server P} (before : List Request) (r : Request) (after : List Request) (now : ℕ)
        → Reach s (before ++ r ∷ after)
        → Reach
            (finish_callback public_url parse provider to_map deep_equal s r now).0
            (before ++ after)

  pub record IsCounted (s : Server P) (active : List Request) : Type 0 where
    pub slots : s.callbacks ≡ length active
    pub bounded : length active ≤ 4

  abbrev Keeps : Server P → Server P → Type 0
  Keeps s t = t.callbacks ≡ s.callbacks

  answer_url-callbacks :
      (s : Server P) (res : Restream.Result Bytes) (now : ℕ)
      → Keeps s (answer_url public_url parse provider to_map deep_equal s res now).0
  unfolding answer_url then_answer publish_chat_status
  answer_url-callbacks s (ok url) now = refl
  answer_url-callbacks s (err e) now = elim (Bool-cases (is_needs_auth e)) [
    | inl asked ↦ rw asked refl
    | inr other ↦ rw other refl
  ]

  serve_chat_url-callbacks :
      (s : Server P) (r : Request) (now : ℕ)
      → Keeps s (serve_chat_url public_url parse provider to_map deep_equal s r now).0
  unfolding serve_chat_url
  serve_chat_url-callbacks s r now = elim (Option-cases (chat_guard public_url parse r)) [
    | inl fine ↦
        rw (serve_chat_url, fine)
          (answer_url-callbacks (record s { chat = (provider.url s.chat now).0 })
            (provider.url s.chat now).1 now)
    | inr (a, refused) ↦ rw (serve_chat_url, refused) refl
  ]

  answer_start-callbacks :
      (s : Server P) (chat : P) (url : Option Bytes)
      → Keeps s (answer_start public_url parse provider to_map deep_equal s (chat, url)).0
  unfolding answer_start
  answer_start-callbacks s chat none = refl
  answer_start-callbacks s chat (some url) = refl

  start_here-callbacks :
      (s : Server P) (now : ℕ)
      → Keeps s (start_here public_url parse provider to_map deep_equal s now).0
  unfolding start_here
  start_here-callbacks s now = elim (Bool-cases (allow s.chat_starts now).1) [
    | inl permitted ↦ rw permitted (
        answer_start-callbacks (record s { chat_starts = (allow s.chat_starts now).0 })
          (provider.login_url s.chat now).0 (provider.login_url s.chat now).1)
    | inr refused ↦ rw refused refl
  ]

  serve_chat_auth_start-callbacks :
      (s : Server P) (r : Request) (now : ℕ)
      → Keeps s (serve_chat_auth_start public_url parse provider to_map deep_equal s r now).0
  unfolding serve_chat_auth_start
  serve_chat_auth_start-callbacks s r now = elim (Bool-cases (is_get r)) [
    | inr other ↦ rw other refl
    | inl get ↦ elim (Bool-cases (chat_site_allowed r)) [
      | inr cross ↦ rw (get, cross) refl
      | inl same ↦ elim (Option-cases (chat_auth_public_redirect public_url parse r)) [
        | inl here ↦ rw (get, same, here) (start_here-callbacks s now)
        | inr (target, away) ↦ rw (get, same, away) refl
      ]
    ]
  ]

  answer_callback-callbacks :
      (s : Server P) (failure : Option Error) (now : ℕ)
      → Keeps s (answer_callback public_url parse provider to_map deep_equal s failure now).0
  unfolding answer_callback then_answer publish_chat_status
  answer_callback-callbacks s none now = refl
  answer_callback-callbacks s (some e) now = refl

  finish_callback-callbacks :
      (s : Server P) (r : Request) (now : ℕ)
      → (finish_callback public_url parse provider to_map deep_equal s r now).0.callbacks
        ≡ s.callbacks - 1
  unfolding finish_callback release_slot
  finish_callback-callbacks s r now = elim (Bool-cases (is_blank r.code)) [
    | inl blank ↦ rw blank refl
    | inr given ↦ rw given (
        ap (λ n. n - 1)
          (answer_callback-callbacks
            (record s { chat = (provider.complete s.chat r.code r.state now).0 })
            (provider.complete s.chat r.code r.state now).1 now))
  ]

  enters :
      (s : Server P) (r : Request)
      → (enter_callback public_url parse provider to_map deep_equal s r).1 ≡ none
      → (s.callbacks < 4)
        × ((enter_callback public_url parse provider to_map deep_equal s r).0.callbacks
            ≡ s.callbacks + 1)
  unfolding enter_callback
  enters s r e = elim (Option-cases (chat_guard public_url parse r)) [
    | inr (a, refused) ↦ cc (rw (enter_callback, refused) at e)
    | inl fine ↦ elim (Bool-cases (ltb s.callbacks 4)) [
      | inl free ↦ (ground (arith, free), rw (enter_callback, fine, free) refl)
      | inr full ↦ cc (rw (enter_callback, fine, full) at e)
    ]
  ]

  stays_out :
      (s : Server P) (r : Request) (a : Answer)
      → (enter_callback public_url parse provider to_map deep_equal s r).1 ≡ some a
      → Keeps s (enter_callback public_url parse provider to_map deep_equal s r).0
  unfolding enter_callback
  stays_out s r a e = elim (Option-cases (chat_guard public_url parse r)) [
    | inr (b, refused) ↦ rw (enter_callback, refused) refl
    | inl fine ↦ elim (Bool-cases (ltb s.callbacks 4)) [
      | inl free ↦ cc (rw (enter_callback, fine, free) at e)
      | inr full ↦ rw (enter_callback, fine, full) refl
    ]
  ]

  length-gap :
      (before : List Request) (r : Request) (after : List Request)
      → length (before ++ r ∷ after) ≡ length (before ++ after) + 1
  length-gap [] r after = omega arith
  length-gap (b ∷ before) r after = let ih = length-gap before r after in omega (arith, ih)

  -- However requests of the three routes interleave, the slots taken are the callbacks in flight,
  -- which are at most four.
  pub Reach-IsCounted : (s : Server P) (active : List Request) → Reach s active → IsCounted s active
  unfolding new_server
  Reach-IsCounted _ _ (fresh chat store) = record { slots = refl; bounded = omega arith }
  Reach-IsCounted _ _ (url_served {s = s} {active = active} r now m) =
      let v = Reach-IsCounted s active m in
      record { slots = serve_chat_url-callbacks s r now ∙ v.slots; bounded = v.bounded }
  Reach-IsCounted _ _ (start_served {s = s} {active = active} r now m) =
      let v = Reach-IsCounted s active m in
      record { slots = serve_chat_auth_start-callbacks s r now ∙ v.slots; bounded = v.bounded }
  Reach-IsCounted _ _ (entered {s = s} {active = active} r m e) =
      let v = Reach-IsCounted s active m in
      let (room, one_more) = enters s r e in
      record { slots = omega (arith, one_more, v.slots); bounded = omega (arith, room, v.slots) }
  Reach-IsCounted _ _ (turned_away {s = s} {active = active} r a m e) =
      let v = Reach-IsCounted s active m in
      record { slots = stays_out s r a e ∙ v.slots; bounded = v.bounded }
  Reach-IsCounted _ _ (finished {s = s} before r after now m) =
      let v = Reach-IsCounted s (before ++ r ∷ after) m in
      let fewer = length-gap before r after in
      let released = finish_callback-callbacks s r now in
      record {
        slots = omega (arith, released, v.slots, fewer);
        bounded = omega (arith, v.bounded, fewer);
      }
