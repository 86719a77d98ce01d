-- ===== src/Api/Chat/Drained.antt =====
-- chat.go: the callbacks in flight run to their ends.
use cuebooth.Prelude.{ℕ, ◌≡◌, refl, Bool, Option, none, List, [], ◌∷◌, Bytes}
use cuebooth.State.{State}
use cuebooth.State.Json.{Json, Object}
use cuebooth.Config.Chat.{Url}
use cuebooth.Api.Chat.{Provider, Request, Server, chat_guard, enter_callback, finish_callback}
use cuebooth.Api.Chat.Slots.{Reach, Reach-IsCounted, finished}

module _ (public_url : List Bytes) (parse : Bytes → Option Url) {P : Type 0} (provider : Provider P)
    (to_map : State → Option Object) (deep_equal : Json → Json → Bool) where
  pub finish_all : Server P → List Request → ℕ → Server P
  finish_all s [] now = s
  finish_all s (r ∷ active) now =
      finish_all (finish_callback public_url parse provider to_map deep_equal s r now).0 active now

  finish_all-Reach :
      (s : Server P) (active : List Request) (now : ℕ)
      → Reach public_url parse provider to_map deep_equal s active
      → Reach public_url parse provider to_map deep_equal (finish_all s active now) []
  unfolding finish_all
  finish_all-Reach s [] now m = m
  finish_all-Reach s (r ∷ active) now m =
      finish_all-Reach (finish_callback public_url parse provider to_map deep_equal s r now).0
        active now (finished [] r active now m)

  -- From every reachable state, once the callbacks in flight have finished, whether they succeed or
  -- fail, all slots are free, and the next callback that passes the guard is let in.
  pub drained_admits :
      (s : Server P) (active : List Request) (r : Request) (now : ℕ)
      → Reach public_url parse provider to_map deep_equal s active
      → chat_guard public_url parse r ≡ none
      → let s' = finish_all s active now in
        (s'.callbacks ≡ 0)
        × ((enter_callback public_url parse provider to_map deep_equal s' r).1 ≡ none)
  unfolding enter_callback
  drained_admits s active r now m fine =
      let v =
        Reach-IsCounted public_url parse provider to_map deep_equal (finish_all s active now) []
          (finish_all-Reach s active now m) in
      (v.slots, rw (enter_callback, fine, v.slots) refl)
