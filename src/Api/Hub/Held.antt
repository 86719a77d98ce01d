-- ===== src/Api/Hub/Held.antt =====
-- One client of the hub, of any topics: what it holds before and after an update of the store.
use cuebooth.Prelude.{◌≡◌, ◌⊎◌, Bool, true, Option, some, List, Bytes, arith, inl, inr}
use cuebooth.State.{State, normalize, topics}
use cuebooth.State.Json.{Json, Object, IsCleanObject}
use cuebooth.State.Json.Same.{Same}
use cuebooth.State.MergePatch.{has_topic}
use cuebooth.State.AppState.{AppState, reset, apply_snapshot}
use cuebooth.State.Store.{Store, snapshot, update, receive_all}
use cuebooth.State.Store.Mirror.{Mirrors, IsBehind, update_mirrored}
use cuebooth.State.Store.Gaps.{IsStale, update-IsStale, snapshot-Mirrors}
use cuebooth.State.Store.Updates.{Covers, IsValid, update-Good}

-- Every topic that there is is among these.
abbrev pub FollowsAll : List Bytes → Type 0
FollowsAll ts = (k : Bytes) → has_topic topics k ≡ true → has_topic ts k ≡ true

-- The client mirrors the store or is behind it, and mirrors it if it follows every topic.
pub record IsHeld (ts : List Bytes) (s : Store) (a : AppState) : Type 0 where
  pub mirrors_or_stale : Mirrors ts s a ⊎ IsStale s a
  pub whole : FollowsAll ts → Mirrors ts s a

pub Mirrors-IsHeld : (ts : List Bytes) (s : Store) (a : AppState) → Mirrors ts s a → IsHeld ts s a
Mirrors-IsHeld ts s a m = record { mirrors_or_stale = inl m; whole = λ f. m }

IsBehind-IsStale :
    (ts : List Bytes) (s : Store) (a : AppState)
    → Mirrors ts s a ⊎ IsBehind ts s a
    → Mirrors ts s a ⊎ IsStale s a
IsBehind-IsStale ts s a (inl m) = inl m
IsBehind-IsStale ts s a (inr b) =
    let e = b.one_rev in inr (record { baseline = b.baseline; older = omega (arith, e) })

module _ (to_map : State → Option Object) (deep_equal : Json → Json → Bool)
    (deep_equal-Same : (v w : Json) → deep_equal v w ≡ true → Same v w)
    (to_map-IsCleanObject : (st : State) (o : Object)
      → to_map (normalize st) ≡ some o
      → IsCleanObject o)
    (to_map-Covers : (st : State) (o : Object) → to_map st ≡ some o → Covers topics o) where
  -- An update keeps a store valid.
  pub update-IsValid :
      (s : Store) (mutate : State → State)
      → IsValid topics s
      → IsValid topics (update to_map deep_equal s mutate).0
  update-IsValid s mutate v =
      (update-Good to_map deep_equal topics deep_equal-Same to_map-IsCleanObject to_map-Covers s
        mutate (apply_snapshot reset (snapshot s topics).0 (snapshot s topics).1)
        (v, snapshot-Mirrors topics s reset)).0

  -- A client of every topic, by whatever list of them.
  whole_update :
      (ts : List Bytes) (s : Store) (mutate : State → State) (a : AppState)
      → IsValid topics s
      → FollowsAll ts
      → Mirrors ts s a
      → let (s', res, observed) = update to_map deep_equal s mutate in
        Mirrors ts s' (receive_all ts a observed)
  whole_update ts s mutate a v f m =
      (update-Good to_map deep_equal ts deep_equal-Same to_map-IsCleanObject
        (λ st o e k w h. f k (to_map-Covers st o e k w h)) s mutate a
        (record { clean = v.clean; covered = λ k w h. f k (v.covered k w h) }, m)).1

  either_update :
      (ts : List Bytes) (s : Store) (mutate : State → State) (a : AppState)
      → IsValid topics s
      → Mirrors ts s a ⊎ IsStale s a
      → let (s', res, observed) = update to_map deep_equal s mutate in
        Mirrors ts s' (receive_all ts a observed) ⊎ IsStale s' (receive_all ts a observed)
  either_update ts s mutate a v (inl m) =
      IsBehind-IsStale ts (update to_map deep_equal s mutate).0
        (receive_all ts a (update to_map deep_equal s mutate).2)
        (update_mirrored to_map deep_equal deep_equal-Same to_map-IsCleanObject ts s mutate a
          v.clean m)
  either_update ts s mutate a v (inr o) = inr (update-IsStale to_map deep_equal ts s mutate a o)

  pub update-IsHeld :
      (ts : List Bytes) (s : Store) (mutate : State → State) (a : AppState)
      → IsValid topics s
      → IsHeld ts s a
      → let (s', res, observed) = update to_map deep_equal s mutate in
        IsHeld ts s' (receive_all ts a observed)
  update-IsHeld ts s mutate a v h = record {
    mirrors_or_stale = either_update ts s mutate a v h.mirrors_or_stale;
    whole = λ f. whole_update ts s mutate a v f (h.whole f);
  }
