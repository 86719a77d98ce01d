-- ===== src/State/Store/Updates.antt =====
-- store.go: an update, and a client that follows every topic there is.
use cuebooth.Prelude.{
  ◌≡◌, ◌⊎◌, refl, sym, ◌∙◌, Bool, true, false, Option, none, some, List, Bytes, Bool-cases,
  Option-cases, inl, inr,
}
use cuebooth.State.{State, normalize}
use cuebooth.State.Json.{Json, Object, end, field, lookup, is_empty, IsCleanObject}
use cuebooth.State.Json.Fields.{or_else, lookup_self}
use cuebooth.State.Json.Same.{Same}
use cuebooth.State.MergePatch.{diff, filter_topics, has_topic}
use cuebooth.State.MergePatch.Lookup.{lookup-diff, from_new, deletion}
use cuebooth.State.MergePatch.Follows.Fields.{IsCleanObject-Unique}
use cuebooth.State.AppState.{AppState}
use cuebooth.State.Store.{Store, commit, after_marshal, update, receive_all}
use cuebooth.State.Store.Mirror.{Mirrors, commit_mirrored}

-- Every key of the object is a topic.
abbrev pub Covers : List Bytes → Object → Type 0
Covers topics o = (k : Bytes) (v : Json) → lookup k o ≡ some v → has_topic topics k ≡ true

-- A patch whose first key is a topic reaches the client.
covered_patch :
    (topics : List Bytes) (p : Object)
    → Covers topics p
    → is_empty p ≡ false
    → is_empty (filter_topics topics p) ≡ false
unfolding is_empty filter_topics
covered_patch topics end c e = cc
covered_patch topics (field k v p) c e = rw (c k v (lookup_self k v p)) refl

module _ (deep_equal : Json → Json → Bool) where
  -- What is at a key of a patch comes from the new state or the old one.
  from_either :
      (ov nv : Option Json) (v : Json)
      → or_else (from_new deep_equal ov nv) (deletion ov nv) ≡ some v
      → ((w : Json) × (ov ≡ some w)) ⊎ ((w : Json) × (nv ≡ some w))
  from_either none none v e = cc
  from_either (some w) none v e = inl (w, refl)
  from_either ov (some w) v e = inr (w, refl)

  diff-Covers :
      (topics : List Bytes) (old new : Object)
      → IsCleanObject old
      → IsCleanObject new
      → Covers topics old
      → Covers topics new
      → Covers topics (diff deep_equal old new)
  diff-Covers topics old new co cn vo vn k v e =
      let at =
        lookup-diff deep_equal k old new (IsCleanObject-Unique old co)
          (IsCleanObject-Unique new cn) in
      elim (from_either (lookup k old) (lookup k new) v (sym at ∙ e)) [
        | inl (w, there) ↦ vo k w there
        | inr (w, there) ↦ vn k w there
      ]

-- A store whose JSON form came from toMap.
pub record IsValid (topics : List Bytes) (s : Store) : Type 0 where
  pub clean : IsCleanObject s.cur
  pub covered : Covers topics s.cur

module _ (to_map : State → Option Object) (deep_equal : Json → Json → Bool) (topics : List Bytes)
    (deep_equal-Same : (v w : Json) → deep_equal v w ≡ true → Same v w)
    (to_map-IsCleanObject : (st : State) (o : Object)
      → to_map (normalize st) ≡ some o
      → IsCleanObject o)
    (to_map-Covers : (st : State) (o : Object) → to_map st ≡ some o → Covers topics o) where
  abbrev pub Good : Store → AppState → Type 0
  Good s a = IsValid topics s × Mirrors topics s a

  commit-IsValid :
      (s : Store) (next : Object)
      → IsValid topics s
      → IsCleanObject next
      → Covers topics next
      → IsValid topics (commit to_map deep_equal s next (diff deep_equal s.cur next)).0
  unfolding commit
  commit-IsValid s next v cn vn = elim (Bool-cases (is_empty (diff deep_equal s.cur next))) [
    | inl same ↦ rw same v
    | inr changed ↦ rw changed (record { clean = cn; covered = vn })
  ]

  commit-Good :
      (s : Store) (next : Object) (a : AppState)
      → IsValid topics s
      → Mirrors topics s a
      → IsCleanObject next
      → Covers topics next
      → let (s', res, observed) = commit to_map deep_equal s next (diff deep_equal s.cur next) in
        Good s' (receive_all topics a observed)
  commit-Good s next a v m cn vn =
      let patch = diff deep_equal s.cur next in
      (
        commit-IsValid s next v cn vn,
        elim (commit_mirrored to_map deep_equal deep_equal-Same to_map-IsCleanObject topics s next a
            v.clean cn m) [
              | inl now ↦ now
              | inr (changed, other, behind) ↦
                  let ours =
                    covered_patch topics patch
                      (diff-Covers deep_equal topics s.cur next v.clean cn v.covered vn) changed in
                  cc (other, ours)
            ],
      )

  pub update-Good :
      (s : Store) (mutate : State → State) (a : AppState)
      → Good s a
      → let (s', res, observed) = update to_map deep_equal s mutate in
        Good s' (receive_all topics a observed)
  unfolding update after_marshal receive_all
  update-Good s mutate a (v, m) = elim (Option-cases (to_map (normalize (mutate s.st)))) [
    | inl fails ↦ rw fails (
        (
          record { clean = v.clean; covered = v.covered },
          record { baseline = m.baseline; same_rev = m.same_rev; copy = m.copy },
        ))
    | inr (next, e) ↦ rw e (
        commit-Good (record s { st = normalize (mutate s.st) }) next a
          (record { clean = v.clean; covered = v.covered })
          (record { baseline = m.baseline; same_rev = m.same_rev; copy = m.copy })
          (to_map-IsCleanObject (mutate s.st) next e)
          (to_map-Covers (normalize (mutate s.st)) next e))
  ]
