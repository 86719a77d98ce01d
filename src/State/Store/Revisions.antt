-- ===== src/State/Store/Revisions.antt =====
-- store.go: the results that the observer is called with over a run of updates.
use cuebooth.Prelude.{
  ℕ, ◌+◌, ◌≡◌, refl, Bool, true, false, Option, List, [], ◌∷◌, ◌++◌, inl, inr, Bool-cases,
  Option-cases,
}
use cuebooth.State.{State, normalize}
use cuebooth.State.Json.{Json, Object, is_empty}
use cuebooth.State.MergePatch.{diff}
use cuebooth.State.Store.{Store, Result, commit, after_marshal, update}

-- The results count up by one from a revision to another, and each has a patch that changes something.
abbrev pub Consecutive : ℕ → List Result → ℕ → Type 0
Consecutive r [] last = r ≡ last
Consecutive r (res ∷ later) last =
    (res.rev ≡ r + 1)
    × (res.changed ≡ true)
    × (is_empty res.patch ≡ false)
    × Consecutive (r + 1) later last

joined :
    (xs ys : List Result) (q r last : ℕ)
    → Consecutive q xs r
    → Consecutive r ys last
    → Consecutive q (xs ++ ys) last
joined [] ys q r last e f = rw e f
joined (x ∷ xs) ys q r last (a, b, c, later) f = (a, b, c, joined xs ys (q + 1) r last later f)

module _ (to_map : State → Option Object) (deep_equal : Json → Json → Bool) where
  unfoldable pub run_all : Store → List (State → State) → Store × List Result
  run_all s [] = (s, [])
  run_all s (mutate ∷ later) =
      let (s', res, observed) = update to_map deep_equal s mutate in
      let (s'', rest) = run_all s' later in (s'', observed ++ rest)

  update-Consecutive :
      (s : Store) (mutate : State → State)
      → let (s', res, observed) = update to_map deep_equal s mutate in
        Consecutive s.rev observed s'.rev
  unfolding update after_marshal commit
  update-Consecutive s mutate = elim (Option-cases (to_map (normalize (mutate s.st)))) [
    | inl fails ↦ rw fails refl
    | inr (next, e) ↦ elim (Bool-cases (is_empty (diff deep_equal s.cur next))) [
      | inl same ↦ rw (e, same) refl
      | inr changed ↦ rw (e, changed) (refl, refl, changed, refl)
    ]
  ]

  -- Over any updates, failed ones and ones that change nothing included, the observer is called with
  -- the revisions from the store's next one to its last one, each once and in order, and with no empty
  -- patch.
  pub run_all-Consecutive :
      (s : Store) (mutates : List (State → State))
      → let (s', observed) = run_all s mutates in Consecutive s.rev observed s'.rev
  unfolding run_all
  run_all-Consecutive s [] = refl
  run_all-Consecutive s (mutate ∷ later) =
      joined (update to_map deep_equal s mutate).2
        (run_all (update to_map deep_equal s mutate).0 later).1 _ _ _ (update-Consecutive s mutate)
        (run_all-Consecutive (update to_map deep_equal s mutate).0 later)
