-- ===== src/State/Store/Mirror.antt =====
-- store.go's updates, the deltas that a client is sent, and the client's copy.
use cuebooth.Prelude.{
  ℕ, ◌+◌, ◌≡◌, ◌⊎◌, inl, inr, refl, sym, ap, subst, Bool, true, false, Option, some, List, Bytes,
  arith, Bool-cases, Option-cases,
}
use cuebooth.State.{State, normalize}
use cuebooth.State.Json.{Json, Object, end, field, obj, is_empty, IsCleanObject}
use cuebooth.State.Json.Same.{Same}
use cuebooth.State.MergePatch.{diff, filter_topics}
use cuebooth.State.MergePatch.Client.{apply_fields}
use cuebooth.State.MergePatch.Topics.{apply_fields-filter_topics}
use cuebooth.State.AppState.{AppState, apply_delta, applied}
use cuebooth.State.Store.{Store, commit, after_marshal, update, delta_for, receive, receive_all}

-- The client holds what the store does, as far as its topics go.
abbrev pub Holds : List Bytes → Store → AppState → Type 0
Holds topics s a = Same (obj a.fields) (obj (filter_topics topics s.cur))

pub record Mirrors (topics : List Bytes) (s : Store) (a : AppState) : Type 0 where
  pub baseline : a.have_baseline ≡ true
  pub same_rev : a.rev ≡ s.rev
  pub copy : Holds topics s a

-- The client is passed over by an update of other topics.
pub record IsBehind (topics : List Bytes) (s : Store) (a : AppState) : Type 0 where
  pub baseline : a.have_baseline ≡ true
  pub one_rev : s.rev ≡ a.rev + 1
  pub copy : Holds topics s a

-- The update made a patch, of other topics only.
abbrev pub PassedOver : List Bytes → Object → Store → AppState → Type 0
PassedOver topics patch s a =
    (is_empty patch ≡ false) × (is_empty (filter_topics topics patch) ≡ true) × IsBehind topics s a

empty_end : (o : Object) → is_empty o ≡ true → o ≡ end
unfolding is_empty
empty_end end e = refl
empty_end (field k v o) e = cc

or_IsBehind :
    (patch : Object) {topics : List Bytes} {s : Store} {a : AppState}
    → Mirrors topics s a ⊎ PassedOver topics patch s a
    → Mirrors topics s a ⊎ IsBehind topics s a
or_IsBehind patch (inl m) = inl m
or_IsBehind patch (inr p) = inr p.2

-- A delta of the next revision is folded in.
pub next_applied :
    (a : AppState) (rev : ℕ) (patch : Object)
    → a.have_baseline ≡ true
    → a.rev ≡ rev
    → apply_delta a (rev + 1) patch ≡ (
      record { fields = apply_fields a.fields patch; rev = rev + 1; have_baseline = true },
      applied,
    )
unfolding apply_delta
next_applied a rev patch b e = ground (arith, b, e)

module _ (to_map : State → Option Object) (deep_equal : Json → Json → Bool)
    (deep_equal-Same : (v w : Json) → deep_equal v w ≡ true → Same v w)
    (to_map-IsCleanObject : (st : State) (o : Object)
      → to_map (normalize st) ≡ some o
      → IsCleanObject o) where
  pub commit_mirrored :
      (topics : List Bytes) (s : Store) (next : Object) (a : AppState)
      → IsCleanObject s.cur
      → IsCleanObject next
      → Mirrors topics s a
      → let (s', res, observed) = commit to_map deep_equal s next (diff deep_equal s.cur next) in
        Mirrors topics s' (receive_all topics a observed)
        ⊎ PassedOver topics (diff deep_equal s.cur next) s' (receive_all topics a observed)
  unfolding commit receive_all receive delta_for apply_fields
  commit_mirrored topics s next a cs cn m =
      let patch = diff deep_equal s.cur next in
      let new_copy =
        apply_fields-filter_topics deep_equal deep_equal-Same topics a.fields s.cur next m.copy cs
          cn in
      elim (Bool-cases (is_empty patch)) [
        | inl same ↦ rw same (inl m)
        | inr changed ↦ elim (Bool-cases (is_empty (filter_topics topics patch))) [
          | inl other ↦
              rw (changed, other)
                (inr (
                  refl,
                  refl,
                  record {
                    baseline = m.baseline;
                    one_rev = omega (arith, m.same_rev);
                    copy = rw (empty_end (filter_topics topics patch) other) at new_copy;
                  },
                ))
          | inr ours ↦
              rw (changed, ours)
                (inl (
                  subst (Mirrors topics (record s { cur = next; rev = s.rev + 1 }))
                    (ap (λ r. r.0)
                      (sym
                        (next_applied a s.rev (filter_topics topics patch) m.baseline m.same_rev)))
                    (record { baseline = refl; same_rev = refl; copy = new_copy })))
        ]
      ]

  -- A client that mirrors the store before an update and is sent the delta, if the update makes one
  -- of its topics: it mirrors the store after the update, or else the update changed other topics
  -- only, and the client holds what the store does but is one revision behind. This holds of every
  -- update, those that change nothing or that fail to be marshalled included, where toMap of a
  -- normalized state has no null field and no key twice, and DeepEqual holds of equal values only.
  pub update_mirrored :
      (topics : List Bytes) (s : Store) (mutate : State → State) (a : AppState)
      → IsCleanObject s.cur
      → Mirrors topics s a
      → let (s', res, observed) = update to_map deep_equal s mutate in
        Mirrors topics s' (receive_all topics a observed)
        ⊎ IsBehind topics s' (receive_all topics a observed)
  unfolding update after_marshal receive_all
  update_mirrored topics s mutate a cs m = elim (Option-cases (to_map (normalize (mutate s.st)))) [
    | inl fails ↦
        rw fails (inl (record { baseline = m.baseline; same_rev = m.same_rev; copy = m.copy }))
    | inr (next, e) ↦ rw e (
        or_IsBehind (diff deep_equal s.cur next) (
          commit_mirrored topics (record s { st = normalize (mutate s.st) }) next a cs
            (to_map-IsCleanObject (mutate s.st) next e)
            (record { baseline = m.baseline; same_rev = m.same_rev; copy = m.copy })))
  ]
