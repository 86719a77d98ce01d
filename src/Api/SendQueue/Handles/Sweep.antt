-- ===== src/Api/SendQueue/Handles/Sweep.antt =====
-- sendqueue.go: pushSurfaceLayout, its loop over the index and the removal of the old layout.
use cuebooth.Prelude.{
  ℕ, suc, ◌≡◌, refl, false, none, some, List, [], ◌∷◌, if◌then◌else◌, arith, fun_ext, subst, sym,
  ◌∙◌, inl, inr, Bool-cases, Option-cases, ==_self,
}
use cuebooth.Api.SendQueue.{
  SurfaceFrame, Element, SendQueue, value_of, remove, at_most, above, is_swept, sweep_elements,
  sweep, sweep_key, drop_layout,
}
use cuebooth.Api.SendQueue.Frames.{is_key, keep, has_newer_layout, NoLayout, IsCoherent}
use cuebooth.Api.SendQueue.Handles.{
  frames, key_handle, layout_handle, Ascending, IsValid, key_handle_above, layout_handle_above,
  NoKey-key_handle, NoLayout-layout_handle, Ascending-weaken,
}
use cuebooth.Api.SendQueue.Handles.Elements.{
  is_old, sweep_elements-Agree, AllNamed, all_named, swept-Agree, key_handle-remove,
}

-- The renders at or below `seq`.
Ascending-remove :
    (lo hi h : ℕ) (es : List Element) → Ascending lo hi es → Ascending lo hi (remove h es)
unfolding remove
Ascending-remove lo hi h [] a = a
Ascending-remove lo hi h (x ∷ es) a = ground (
  arith,
  Ascending-remove (suc x.handle) hi h es a.1,
  Ascending-weaken (suc x.handle) lo hi es (omega arith) a.1,
)

module _ (seq : ℕ) where
  abbrev pub survivors : List Element → List Element
  survivors = sweep_elements (is_old seq)

  key_handle-sweep :
      (k lo hi : ℕ) (es : List Element)
      → Ascending lo hi es
      → IsCoherent (frames es)
      → key_handle k (survivors es) ≡ elim (key_handle k es) [
        | none ↦ none
        | some h ↦ if at_most seq (value_of h es) then none else some h
      ]
  unfolding sweep_elements is_old value_of
  key_handle-sweep k lo hi [] a c = refl
  key_handle-sweep k lo hi (x ∷ es) a c = elim (Bool-cases (is_key k x.value)) [
    | inl hit ↦
        let e : x.value.key ≡ k = ground arith in
        let gone = rw e at (NoKey-key_handle x.value.key es (c.0 (ground arith)).0) in
        ground (arith, key_handle-sweep k (suc x.handle) hi es a.1 c.2, gone)
    | inr miss ↦ elim (Option-cases (key_handle k es)) [
      | inl unknown ↦ ground (arith, key_handle-sweep k (suc x.handle) hi es a.1 c.2)
      | inr (h, known) ↦ ground (
        arith,
        key_handle-sweep k (suc x.handle) hi es a.1 c.2,
        key_handle_above (suc x.handle) hi k es {h = h} a.1 known,
      )
    ]
  ]

  layout_handle-sweep : (es : List Element) → layout_handle (survivors es) ≡ layout_handle es
  unfolding sweep_elements is_old
  layout_handle-sweep [] = refl
  layout_handle-sweep (x ∷ es) = ground (arith, layout_handle-sweep es)

  Ascending-sweep :
      (lo hi : ℕ) (es : List Element) → Ascending lo hi es → Ascending lo hi (survivors es)
  unfolding sweep_elements is_old
  Ascending-sweep lo hi [] a = a
  Ascending-sweep lo hi (x ∷ es) a =
      let rest = Ascending-sweep (suc x.handle) hi es a.1 in
      ground (arith, rest, Ascending-weaken (suc x.handle) lo hi (survivors es) (omega arith) rest)

  -- With no layout in the lane the sweep alone is `keep`.
  frames-sweep :
      (es : List Element) → layout_handle es ≡ none → frames (survivors es) ≡ keep seq (frames es)
  unfolding sweep_elements is_old keep
  frames-sweep [] e = refl
  frames-sweep (x ∷ es) e = ground (arith, frames-sweep es)

  frames-remove :
      (lo hi h : ℕ) (es : List Element)
      → Ascending lo hi es
      → IsCoherent (frames es)
      → layout_handle es ≡ some h
      → frames (remove h (survivors es)) ≡ keep seq (frames es)
  unfolding sweep_elements is_old keep remove
  frames-remove lo hi h [] a c e = cc
  frames-remove lo hi h (x ∷ es) a c e = elim (Bool-cases x.value.layout) [
    | inl l ↦ ground (arith, frames-sweep es (NoLayout-layout_handle es (c.1 l)))
    | inr r ↦ ground (
      arith,
      frames-remove (suc x.handle) hi h es a.1 c.2,
      layout_handle_above (suc x.handle) hi es {h = h} a.1,
    )
  ]

  -- Of two layouts the queued one is newer, in the list as in the element that `layout` names.
  pub has_newer_layout_lem :
      (lo hi : ℕ) (es : List Element)
      → Ascending lo hi es
      → has_newer_layout seq (frames es)
        ≡ elim (layout_handle es) [ none ↦ false | some h ↦ above seq (value_of h es) ]
  unfolding has_newer_layout value_of
  has_newer_layout_lem lo hi [] a = refl
  has_newer_layout_lem lo hi (x ∷ es) a = elim (Option-cases (layout_handle es)) [
    | inl absent ↦ ground (arith, has_newer_layout_lem (suc x.handle) hi es a.1, ==_self x.handle)
    | inr (h, present) ↦ ground (
      arith,
      has_newer_layout_lem (suc x.handle) hi es a.1,
      layout_handle_above (suc x.handle) hi es {h = h} a.1 present,
      ==_self x.handle,
    )
  ]

-- The queue once the loop and the old layout's removal are done.
pub record Swept (q : SendQueue) (seq : ℕ) (kept : SendQueue) : Type 0 where
  pub keyed : (k : ℕ) → kept.keys k ≡ key_handle k kept.surface
  pub cleared : layout_handle kept.surface ≡ none
  pub ordered : Ascending 0 kept.next_id kept.surface
  pub remaining : frames kept.surface ≡ keep seq (frames q.surface)
  pub state : kept.state ≡ q.state

NoLayout-keep : (seq : ℕ) (fs : List SurfaceFrame) → NoLayout (keep seq fs)
unfolding keep
NoLayout-keep seq [] = tt
NoLayout-keep seq (f ∷ fs) = ground (arith, NoLayout-keep seq fs)

sweep_surface :
    (q : SendQueue) (seq : ℕ)
    → IsValid q
    → sweep_elements (is_swept q seq) q.surface ≡ survivors seq q.surface
sweep_surface q seq v = sweep_elements-Agree (is_swept q seq) (is_old seq) q.surface (
    swept-Agree q seq q.surface (
      subst (λ keys. AllNamed keys q.surface) (sym (fun_ext v.keyed))
        (all_named 0 q.next_id q.surface v.ordered v.coherent)))

sweep_key_lem :
    (q : SendQueue) (seq k : ℕ)
    → IsValid q
    → sweep_key q seq k ≡ key_handle k (survivors seq q.surface)
unfolding sweep_key
sweep_key_lem q seq k v =
    rw (v.keyed k, sweep_key)
      (sym (key_handle-sweep seq k 0 q.next_id q.surface v.ordered v.coherent))

pub drop_layout-Swept :
    (q : SendQueue) (seq : ℕ) → IsValid q → Swept q seq (drop_layout (sweep q seq))
unfolding drop_layout sweep
drop_layout-Swept q seq v =
    let swept = sweep_surface q seq v in
    let es = survivors seq q.surface in
    let ordered = Ascending-sweep seq 0 q.next_id q.surface v.ordered in
    elim (Option-cases q.layout) [
      | inl absent ↦
          let none_laid = sym v.laid ∙ absent in
          rw absent (record {
            keyed = λ k. rw swept (sweep_key_lem q seq k v);
            cleared = rw swept (layout_handle-sweep seq q.surface ∙ none_laid);
            ordered = rw swept ordered;
            remaining = rw swept (frames-sweep seq q.surface none_laid);
            state = refl;
          })
      | inr (h, present) ↦
          let laid = sym v.laid ∙ present in
          let same = frames-remove seq 0 q.next_id h q.surface v.ordered v.coherent laid in
          let laid' = layout_handle-sweep seq q.surface ∙ laid in
          rw present (record {
            keyed = λ k. rw swept (
                sweep_key_lem q seq k v ∙ sym (key_handle-remove k 0 q.next_id h es ordered laid'));
            cleared = rw swept (
                NoLayout-layout_handle (remove h es)
                  (rw same (NoLayout-keep seq (frames q.surface))));
            ordered = rw swept (Ascending-remove 0 q.next_id h es ordered);
            remaining = rw swept same;
            state = refl;
          })
    ]
