-- ===== src/Api/Chat/Published.antt =====
-- chat.go: what the state says of the chat after /chat/url and after a callback.
use cuebooth.Prelude.{
  ℕ, ◌≡◌, ◌⊎◌, inl, inr, refl, Bool, Option, none, some, List, [], Bytes, Bool-cases, Option-cases,
}
use cuebooth.State.{State, StreamState, ChatState, normalize}
use cuebooth.State.Json.{Json, Object, is_empty}
use cuebooth.State.MergePatch.{diff}
use cuebooth.State.Store.{Store, update, after_marshal, commit}
use cuebooth.Config.Chat.{Url}
use cuebooth.Chat.Restream.{Error, missing_scope, needs_auth, ok, err}
use cuebooth.Chat.Restream
use cuebooth.Api.Chat.{
  is_needs_auth, Provider, Request, Server, provider_unavailable, status_text, set_chat,
  publish_chat_status, answer_url, then_answer, serve_chat_url, chat_guard,
}

-- The state after an update is the mutated one, whatever becomes of its JSON form.
module _ (to_map : State → Option Object) (deep_equal : Json → Json → Bool) where
  commit-st :
      (s : Store) (next patch : Object) → (commit to_map deep_equal s next patch).0.st ≡ s.st
  unfolding commit
  commit-st s next patch = elim (Bool-cases (is_empty patch)) [
    | inl same ↦ rw same refl
    | inr changed ↦ rw changed refl
  ]

  pub update-st :
      (s : Store) (mutate : State → State)
      → (update to_map deep_equal s mutate).0.st ≡ normalize (mutate s.st)
  unfolding update after_marshal
  update-st s mutate = elim (Option-cases (to_map (normalize (mutate s.st)))) [
    | inl fails ↦ rw fails refl
    | inr (next, e) ↦
        rw e
          (commit-st (record s { st = normalize (mutate s.st) }) next (diff deep_equal s.cur next))
  ]

  -- What clients are sent of the state after an update: what they were before, or its JSON form.
  pub update-cur :
      (s : Store) (mutate : State → State)
      → let s' = (update to_map deep_equal s mutate).0 in
        (s'.cur ≡ s.cur) ⊎ (to_map s'.st ≡ some s'.cur)
  unfolding update after_marshal commit
  update-cur s mutate = elim (Option-cases (to_map (normalize (mutate s.st)))) [
    | inl fails ↦ rw fails (inl refl)
    | inr (next, e) ↦ elim (Bool-cases (is_empty (diff deep_equal s.cur next))) [
      | inl same ↦ rw (e, same) (inl refl)
      | inr changed ↦ rw (e, changed) (inr e)
    ]
  ]

abbrev chat_of : Option StreamState → Option ChatState
chat_of none = none
chat_of (some s) = s.chat

abbrev pub chat_panel : State → Option ChatState
chat_panel st = chat_of st.stream

module _ (public_url : List Bytes) (parse : Bytes → Option Url) {P : Type 0} (provider : Provider P)
    (to_map : State → Option Object) (deep_equal : Json → Json → Bool) where
  -- The state's chat panel says what the provider is now, and the rest is as it was.
  pub record Shows (s : Server P) (now : ℕ) (before : State) : Type 0 where
    pub panel :
        chat_panel s.store.st
        ≡ some (record {
          provider = provider.name;
          status = status_text (provider.authorized s.chat now);
        })
    pub rest :
        s.store.st
        ≡ normalize (
            set_chat
              (record {
                provider = provider.name;
                status = status_text (provider.authorized s.chat now);
              })
              before)

  pub publish-Shows :
      (s : Server P) (now : ℕ)
      → Shows
          (publish_chat_status public_url parse provider to_map deep_equal s now).0
          now
          s.store.st
  unfolding publish_chat_status set_chat normalize
  publish-Shows s now =
      let chat : ChatState = record {
        provider = provider.name;
        status = status_text (provider.authorized s.chat now);
      } in
      let st = update-st to_map deep_equal s.store (set_chat chat) in
      record { panel = rw st refl; rest = st }

  answered :
      (t : Server P) (res : Restream.Result Bytes) (now : ℕ)
      → let (s', answer, observed) =
          answer_url public_url parse provider to_map deep_equal t res now in
        ((answer ≡ provider_unavailable) × (s'.store ≡ t.store) × (observed ≡ []))
        ⊎ Shows s' now t.store.st
  unfolding answer_url then_answer
  answered t (ok url) now = inr (publish-Shows t now)
  answered t (err e) now = elim (Bool-cases (is_needs_auth e)) [
    | inl asked ↦ rw asked (inr (publish-Shows t now))
    | inr other ↦ rw other (inl (refl, refl, refl))
  ]

  -- A request of /chat/url that passes the guard either finds the provider unavailable and leaves the
  -- state as it was, or leaves the state with the provider's name and its status after the attempt,
  -- and with nothing else changed, both where there is a URL and where there is none for want of
  -- authorization, and even if the state then fails to be marshalled.
  pub serve_chat_url-Shows :
      (s : Server P) (r : Request) (now : ℕ)
      → chat_guard public_url parse r ≡ none
      → let (s', answer, observed) =
          serve_chat_url public_url parse provider to_map deep_equal s r now in
        ((answer ≡ provider_unavailable) × (s'.store ≡ s.store) × (observed ≡ []))
        ⊎ Shows s' now s.store.st
  unfolding serve_chat_url
  serve_chat_url-Shows s r now g =
      rw (serve_chat_url, g)
        (answered (record s { chat = (provider.url s.chat now).0 }) (provider.url s.chat now).1 now)
