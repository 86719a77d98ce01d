-- ===== src/State/Poller.antt =====
-- server/internal/state/poller.go: a tick, and Run as the ticks that it makes. What a source's Fetch
-- returns is an argument: `none` is an error, `some none` a nil mutator. The ticker and the logger
-- are left out.
pub mod Ticks
use cuebooth.Prelude.{
  Option, none, some, List, [], ◌∷◌, ◌++◌, Bool, ℤ, pos, negsuc, ltb, if◌then◌else◌,
}
use cuebooth.State.{State}
use cuebooth.State.Json.{Json, Object}
use cuebooth.State.Store.{Store, Result, update}

-- time.Second
abbrev pub default_poll_interval : ℤ
default_poll_interval = pos 1000000000

-- The interval that NewPoller keeps.
pub poll_interval : ℤ → ℤ
poll_interval (pos n) = if ltb 0 n then pos n else default_poll_interval
poll_interval (negsuc n) = default_poll_interval

abbrev pub Fetched : Type 0
Fetched = Option (Option (State → State))

unfoldable pub gather : List Fetched → List (State → State)
gather [] = []
gather (none ∷ rest) = gather rest
gather (some none ∷ rest) = gather rest
gather (some (some apply) ∷ rest) = apply ∷ gather rest

unfoldable pub apply_all : List (State → State) → State → State
apply_all [] st = st
apply_all (apply ∷ later) st = apply_all later (apply st)

module _ (to_map : State → Option Object) (deep_equal : Json → Json → Bool) where
  unfoldable pub update_with : Store → List (State → State) → Store × List Result
  update_with s [] = (s, [])
  update_with s (apply ∷ appliers) =
      let (s', res, observed) = update to_map deep_equal s (apply_all (apply ∷ appliers)) in
      (s', observed)

  unfoldable pub tick : Store → List Fetched → Store × List Result
  tick s fetched = update_with s (gather fetched)

  -- Run: with no source there is no tick.
  unfoldable pub run : Store → List (List Fetched) → Store × List Result
  run s [] = (s, [])
  run s ([] ∷ ticks) = run s ticks
  run s ((f ∷ fetched) ∷ ticks) =
      let (s', observed) = tick s (f ∷ fetched) in
      let (s'', later) = run s' ticks in (s'', observed ++ later)
