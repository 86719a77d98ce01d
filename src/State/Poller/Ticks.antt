-- ===== src/State/Poller/Ticks.antt =====
-- poller.go's ticks as updates of the store.
use cuebooth.Prelude.{◌≡◌, refl, Bool, Option, List, [], ◌∷◌, ◌++◌}
use cuebooth.State.{State}
use cuebooth.State.Json.{Json, Object}
use cuebooth.State.Store.{Store, Result, update}
use cuebooth.State.Store.Revisions.{run_all}
use cuebooth.State.Poller.{Fetched, gather, apply_all, update_with, tick, run}

-- What the ticks apply: nothing for a tick without a reading, and else all its readings as one.
abbrev as_one : List (State → State) → List (State → State) → List (State → State)
as_one [] later = later
as_one (apply ∷ appliers) later = apply_all (apply ∷ appliers) ∷ later

pub readings : List (List Fetched) → List (State → State)
readings [] = []
readings (fetched ∷ ticks) = as_one (gather fetched) (readings ticks)

module _ (to_map : State → Option Object) (deep_equal : Json → Json → Bool) where
  abbrev then_run : Store × List Result → List (List Fetched) → Store × List Result
  then_run (s, observed) ticks =
      let (s', later) = run to_map deep_equal s ticks in (s', observed ++ later)

  one_tick :
      (s : Store) (appliers : List (State → State)) (ticks : List (List Fetched))
      → ((s' : Store)
          → run to_map deep_equal s' ticks ≡ run_all to_map deep_equal s' (readings ticks))
      → then_run (update_with to_map deep_equal s appliers) ticks
        ≡ run_all to_map deep_equal s (as_one appliers (readings ticks))
  unfolding update_with run_all
  one_tick s [] ticks ih = ih s
  one_tick s (apply ∷ appliers) ticks ih =
      rw (ih (update to_map deep_equal s (apply_all (apply ∷ appliers))).0) refl

  -- Polling is one update of the store for each tick that has a reading, with the readings in the
  -- order of their sources, and nothing for a tick that has none; a source that fails or has nothing
  -- to apply is as if it were not there.
  pub run-run_all :
      (s : Store) (ticks : List (List Fetched))
      → run to_map deep_equal s ticks ≡ run_all to_map deep_equal s (readings ticks)
  unfolding run tick run_all readings gather
  run-run_all s [] = refl
  run-run_all s ([] ∷ ticks) = run-run_all s ticks
  run-run_all s ((f ∷ fetched) ∷ ticks) =
      one_tick s (gather (f ∷ fetched)) ticks (λ s'. run-run_all s' ticks)
