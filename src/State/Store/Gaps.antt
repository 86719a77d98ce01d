-- ===== src/State/Store/Gaps.antt =====
-- store.go and broadcastDelta: a client that was passed over.
use cuebooth.Prelude.{
  ◌≤◌, ℕ, ◌+◌, ◌≡◌, refl, Bool, true, Option, some, List, [], ◌∷◌, Bytes, arith, Bool-cases,
  Option-cases, inl, inr,
}
use cuebooth.State.{State, normalize}
use cuebooth.State.Json.{Json, Object, is_empty, obj}
use cuebooth.State.Json.Same.{Same-refl}
use cuebooth.State.MergePatch.{diff, filter_topics}
use cuebooth.State.AppState.{AppState, apply_snapshot, apply_delta, gap}
use cuebooth.State.Store.{
  Store, Result, snapshot, commit, after_marshal, update, delta_for, receive, receive_all,
}
use cuebooth.State.Store.Mirror.{Mirrors, IsBehind}

-- The client answers the delta of a result, if it is sent one, with a gap, and keeps its copy.
abbrev pub MeetsGap : List Bytes → AppState → Result → Type 0
MeetsGap topics a res =
    (rev : ℕ) (patch : Object)
    → delta_for topics res ≡ some (rev, patch)
    → apply_delta a rev patch ≡ (a, gap)

abbrev pub AllResults : (Result → Type 0) → List Result → Type 0
AllResults P [] = Unit {0}
AllResults P (res ∷ later) = P res × AllResults P later

delta_rev :
    (topics : List Bytes) (res : Result) (rev : ℕ) (patch : Object)
    → delta_for topics res ≡ some (rev, patch)
    → rev ≡ res.rev
unfolding delta_for
delta_rev topics res rev patch e = elim (Bool-cases (is_empty (filter_topics topics res.patch))) [
  | inl nothing ↦ cc (rw nothing at e)
  | inr ours ↦ cc (rw ours at e)
]

-- A delta that skips a revision.
skips :
    (a : AppState) (r rev : ℕ) (patch : Object)
    → a.have_baseline ≡ true
    → r ≡ a.rev + 1
    → rev ≡ r + 1
    → apply_delta a rev patch ≡ (a, gap)
unfolding apply_delta
skips a r rev patch b e f = ground (arith, b, e, f)

module _ (to_map : State → Option Object) (deep_equal : Json → Json → Bool) where
  -- A client that is one revision behind, because an update of other topics passed it over, reads the
  -- next delta that it is sent as a gap, whatever the update: no frame was dropped.
  pub behind_gap :
      (topics : List Bytes) (s : Store) (mutate : State → State) (a : AppState)
      → IsBehind topics s a
      → AllResults (MeetsGap topics a) (update to_map deep_equal s mutate).2
  unfolding update after_marshal commit
  behind_gap topics s mutate a b = elim (Option-cases (to_map (normalize (mutate s.st)))) [
    | inl fails ↦ rw fails tt
    | inr (next, e) ↦ elim (Bool-cases (is_empty (diff deep_equal s.cur next))) [
      | inl same ↦ rw (e, same) tt
      | inr changed ↦
          rw (e, changed)
            ((
              λ rev patch sent.
                  skips a s.rev rev patch b.baseline b.one_rev (delta_rev topics _ rev patch sent),
              tt,
            ))
    ]
  ]

-- The client has a baseline, and the store is at a later revision.
pub record IsStale (s : Store) (a : AppState) : Type 0 where
  pub baseline : a.have_baseline ≡ true
  pub older : a.rev + 1 ≤ s.rev

receive_stale :
    (topics : List Bytes) (s : Store) (a : AppState) (res : Result)
    → IsStale s a
    → res.rev ≡ s.rev + 1
    → receive a (delta_for topics res) ≡ a
unfolding receive delta_for apply_delta
receive_stale topics s a res v e = elim (Bool-cases (is_empty (filter_topics topics res.patch))) [
  | inl nothing ↦ rw nothing refl
  | inr ours ↦ let b = v.baseline in let o = v.older in rw ours (ground (arith, b, o, e))
]

module _ (to_map : State → Option Object) (deep_equal : Json → Json → Bool) where
  -- A client that has fallen behind stays as it is and behind, whatever is updated.
  pub update-IsStale :
      (topics : List Bytes) (s : Store) (mutate : State → State) (a : AppState)
      → IsStale s a
      → let (s', res, observed) = update to_map deep_equal s mutate in
        IsStale s' (receive_all topics a observed)
  unfolding update after_marshal commit receive_all
  update-IsStale topics s mutate a v = elim (Option-cases (to_map (normalize (mutate s.st)))) [
    | inl fails ↦ rw fails (record { baseline = v.baseline; older = v.older })
    | inr (next, e) ↦
        let patch = diff deep_equal s.cur next in
        elim (Bool-cases (is_empty patch)) [
          | inl same ↦ rw (e, same) (record { baseline = v.baseline; older = v.older })
          | inr changed ↦
              let res : Result = record { changed = true; rev = s.rev + 1; patch = patch } in
              let o = v.older in
              rw (e, changed, receive_stale topics s a res v refl)
                (record { baseline = v.baseline; older = omega (arith, o) })
        ]
  ]

-- A snapshot, whatever the client held, makes it mirror the store.
pub snapshot-Mirrors :
    (topics : List Bytes) (s : Store) (a : AppState)
    → Mirrors topics s (apply_snapshot a (snapshot s topics).0 (snapshot s topics).1)
unfolding apply_snapshot snapshot
snapshot-Mirrors topics s a = record {
  baseline = refl;
  same_rev = refl;
  copy = Same-refl (obj (filter_topics topics s.cur));
}
