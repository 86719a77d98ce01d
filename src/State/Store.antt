-- ===== src/State/Store.antt =====
-- server/internal/state/store.go: the authoritative state, its JSON form and its revision. toMap, which
-- goes through encoding/json, and reflect.DeepEqual are parameters. An update is one critical section;
-- the observer is the hub's broadcast, seen from one client.
pub mod Mirror
pub mod Gaps
pub mod Updates
pub mod Revisions
use cuebooth.Prelude.{
  ℕ, ◌+◌, Bool, true, false, Option, none, some, List, [], ◌∷◌, Bytes, if◌then◌else◌,
}
use cuebooth.State.{State, normalize}
use cuebooth.State.Json.{Json, Object, end, is_empty}
use cuebooth.State.MergePatch.{diff, filter_topics}
use cuebooth.State.AppState.{AppState, apply_snapshot, apply_delta}

pub record Store : Type 0 where
  pub st : State
  pub cur : Object
  pub rev : ℕ

pub record Result : Type 0 where
  pub changed : Bool
  pub rev : ℕ
  pub patch : Object

unfoldable pub new_store : State → Store
new_store zero_state = record { st = zero_state; cur = end; rev = 0 }

-- Snapshot, and what SnapshotInto hands to its callback.
unfoldable pub snapshot : Store → List Bytes → ℕ × Object
snapshot s topics = (s.rev, filter_topics topics s.cur)

module _ (to_map : State → Option Object) (deep_equal : Json → Json → Bool) where
  -- From `patch := diff(s.cur, next)` on, with what the observer is called with.
  unfoldable pub commit : Store → Object → Object → Store × Result × List Result
  commit s next patch =
      if is_empty patch
      then (s, record { changed = false; rev = s.rev; patch = end }, [])
      else let res : Result = record { changed = true; rev = s.rev + 1; patch = patch } in
        (record s { cur = next; rev = s.rev + 1 }, res, res ∷ [])

  unfoldable pub after_marshal : Store → Option Object → Store × Option Result × List Result
  after_marshal s none = (s, none, [])
  after_marshal s (some next) =
      let (s', res, observed) = commit s next (diff deep_equal s.cur next) in
      (s', some res, observed)

  -- Update: the store, the result, where there is no error, and the calls of the observer.
  unfoldable pub update : Store → (State → State) → Store × Option Result × List Result
  update s mutate =
      let st = normalize (mutate s.st) in after_marshal (record s { st = st }) (to_map st)

-- broadcastDelta, for one client: the delta frame that it is sent, if it is sent one.
unfoldable pub delta_for : List Bytes → Result → Option (ℕ × Object)
delta_for topics res =
    let scoped = filter_topics topics res.patch in
    if is_empty scoped then none else some (res.rev, scoped)

unfoldable pub receive : AppState → Option (ℕ × Object) → AppState
receive a none = a
receive a (some (rev, patch)) = (apply_delta a rev patch).0

unfoldable pub receive_all : List Bytes → AppState → List Result → AppState
receive_all topics a [] = a
receive_all topics a (res ∷ later) = receive_all topics (receive a (delta_for topics res)) later
