-- ===== src/State/MergePatch/Lookup.antt =====
-- mergepatch.go and applyMergePatch, one key at a time.
use cuebooth.Prelude.{
  ◌≡◌, refl, ap, ◌∙◌, subst, Bool, true, false, Option, none, some, Bytes, if◌then◌else◌,
  Bool-cases, Option-cases, inl, inr,
}
use cuebooth.Bytes.{equal}
use cuebooth.Bytes.Equal.{equal→eq, equal_self}
use cuebooth.State.Json.{
  Json, null, Object, end, field, lookup, set, remove, append, is_null, Unique,
}
use cuebooth.State.Json.Fields.{lookup-set, lookup-remove, lookup-append, or_else}
use cuebooth.State.MergePatch.{put, removed, change, diff_each, diff}
use cuebooth.State.MergePatch.Client.{apply_merge_patch, apply_fields}

-- What a client's value becomes, by what the patch holds at its key.
unfoldable pub applied : Option Json → Option Json → Option Json
applied none c = c
applied (some v) c = if is_null v then none else some (apply_merge_patch c v)

-- One field of a patch, folded in.
abbrev fold : Bytes → Json → Object → Object
fold j v base =
    if is_null v then remove j base else set j (apply_merge_patch (lookup j base) v) base

apply_one :
    (k j : Bytes) (v : Json) (base : Object)
    → lookup k (fold j v base)
      ≡ (if equal j k then applied (some v) (lookup k base) else lookup k base)
unfolding applied
apply_one k j v base = elim (Bool-cases (equal j k)) [
  | inl here ↦ elim (Bool-cases (is_null v)) [
    | inl gone ↦ rw (here, gone) (lookup-remove k j base ∙ (rw here refl))
    | inr kept ↦
        let same = ap (λ i. lookup i base) (equal→eq j k here) in
        rw (here, kept, ← same)
          (lookup-set k j (apply_merge_patch (lookup j base) v) base ∙ (rw here refl))
  ]
  | inr other ↦ elim (Bool-cases (is_null v)) [
    | inl gone ↦ rw (other, gone) (lookup-remove k j base ∙ (rw other refl))
    | inr kept ↦
        rw (other, kept)
          (lookup-set k j (apply_merge_patch (lookup j base) v) base ∙ (rw other refl))
  ]
]

-- A patch acts on each key alone.
pub lookup-apply_fields :
    (k : Bytes) (base p : Object)
    → Unique p
    → lookup k (apply_fields base p) ≡ applied (lookup k p) (lookup k base)
unfolding apply_merge_patch applied lookup
lookup-apply_fields k base end u = refl
lookup-apply_fields k base (field j v p) u = elim (Bool-cases (equal j k)) [
  | inl here ↦
      let none_left = subst (λ i. lookup i p ≡ none) (equal→eq j k here) u.0 in
      lookup-apply_fields k (fold j v base) p u.1
      ∙ (rw (none_left, here) (apply_one k j v base ∙ (rw here refl)))
  | inr other ↦
      lookup-apply_fields k (fold j v base) p u.1
      ∙ (rw other (ap (applied (lookup k p)) (apply_one k j v base ∙ (rw other refl))))
]

abbrev pub from_new : (Json → Json → Bool) → Option Json → Option Json → Option Json
from_new deep_equal ov none = none
from_new deep_equal ov (some nv) = change deep_equal ov nv

or_else-none : (v : Option Json) → or_else v none ≡ v
or_else-none none = refl
or_else-none (some v) = refl

lookup-put :
    (k j : Bytes) (v : Option Json) (o : Object)
    → lookup k (put j v o) ≡ (if equal j k then or_else v (lookup k o) else lookup k o)
unfolding lookup
lookup-put k j none o = elim (Bool-cases (equal j k)) [
  | inl here ↦ rw here refl
  | inr other ↦ rw other refl
]
lookup-put k j (some v) o = refl

module _ (deep_equal : Json → Json → Bool) where
  -- What the first loop puts into the patch at a key.
  pub lookup-diff_each :
      (k : Bytes) (old new : Object)
      → Unique new
      → lookup k (diff_each deep_equal old new) ≡ from_new deep_equal (lookup k old) (lookup k new)
  unfolding change lookup
  lookup-diff_each k old end u = refl
  lookup-diff_each k old (field j nv new) u = elim (Bool-cases (equal j k)) [
    | inl here ↦
        let e = equal→eq j k here in
        let none_left = subst (λ i. lookup i new ≡ none) e u.0 in
        let rest = rw none_left at (lookup-diff_each k old new u.1) in
        lookup-put k j (change deep_equal (lookup j old) nv) (diff_each deep_equal old new)
        ∙ (rw (here, rest)
            (or_else-none (change deep_equal (lookup j old) nv)
              ∙ ap (λ i. change deep_equal (lookup i old) nv) e))
    | inr other ↦
        lookup-put k j (change deep_equal (lookup j old) nv) (diff_each deep_equal old new)
        ∙ (rw other (lookup-diff_each k old new u.1))
  ]

-- What the second loop puts there.
abbrev pub deletion : Option Json → Option Json → Option Json
deletion none new = none
deletion (some v) none = some null
deletion (some v) (some w) = none

deletion_given :
    (v : Json) (new : Option Json)
    → (elim new [ none ↦ some null | some w ↦ none ]) ≡ deletion (some v) new
deletion_given v none = refl
deletion_given v (some w) = refl

pub lookup-removed :
    (k : Bytes) (old new : Object)
    → Unique old
    → lookup k (removed old new) ≡ deletion (lookup k old) (lookup k new)
unfolding removed lookup
lookup-removed k end new u = refl
lookup-removed k (field j v old) new u = elim (Bool-cases (equal j k)) [
  | inl here ↦
      let e = equal→eq j k here in
      let none_left = subst (λ i. lookup i old ≡ none) e u.0 in
      let rest = rw none_left at (lookup-removed k old new u.1) in
      lookup-put k j _ (removed old new)
      ∙ (rw (here, rest)
          (or_else-none _
            ∙ deletion_given v (lookup j new)
            ∙ ap (λ i. deletion (some v) (lookup i new)) e))
  | inr other ↦ lookup-put k j _ (removed old new) ∙ (rw other (lookup-removed k old new u.1))
]

Unique-put :
    (k : Bytes) (v : Option Json) (o : Object) → lookup k o ≡ none → Unique o → Unique (put k v o)
Unique-put k none o gone u = u
Unique-put k (some v) o gone u = (gone, u)

apart_at :
    {A : Type 0} (here : Bool) (v : Json) (x : Json) {later : Option Json}
    → later ≡ some x
    → ((y : Json) → (if here then some v else later) ≡ some y → A)
    → A
apart_at true v x e apart = apart v refl
apart_at false v x e apart = apart x e

-- Two objects with no key in common, one behind the other.
Unique-append :
    (o p : Object)
    → Unique o
    → Unique p
    → ((k : Bytes) (v : Json) → lookup k o ≡ some v → lookup k p ≡ none)
    → Unique (append o p)
unfolding append lookup
Unique-append end p u w apart = w
Unique-append (field j v o) p u w apart = (
  lookup-append j o p ∙ (rw (u.0) (apart j v (rw (equal_self j) refl))),
  Unique-append o p u.1 w (λ k x e. apart_at (equal j k) v x e (λ y. apart k y)),
)

Unique-removed : (old new : Object) → Unique old → Unique (removed old new)
unfolding removed
Unique-removed end new u = tt
Unique-removed (field j v old) new u =
    let gone = lookup-removed j old new u.1 ∙ (rw (u.0) refl) in
    Unique-put j _ (removed old new) gone (Unique-removed old new u.1)

deletion-some : (old : Option Json) (w : Json) → deletion old (some w) ≡ none
deletion-some none w = refl
deletion-some (some v) w = refl

module _ (deep_equal : Json → Json → Bool) where
  Unique-diff_each : (old new : Object) → Unique new → Unique (diff_each deep_equal old new)
  unfolding change
  Unique-diff_each old end u = tt
  Unique-diff_each old (field j nv new) u =
      let gone = lookup-diff_each deep_equal j old new u.1 ∙ (rw (u.0) refl) in
      Unique-put j (change deep_equal (lookup j old) nv) (diff_each deep_equal old new) gone
        (Unique-diff_each old new u.1)

  apart_loops :
      (old new : Object)
      → Unique old
      → Unique new
      → (k : Bytes) (v : Json) → lookup k (diff_each deep_equal old new) ≡ some v
      → lookup k (removed old new) ≡ none
  apart_loops old new uo un k v e = elim (Option-cases (lookup k new)) [
    | inl none_new ↦
        let gone = rw none_new at (lookup-diff_each deep_equal k old new un) in cc (e, gone)
    | inr (w, there) ↦ lookup-removed k old new uo ∙ (rw there (deletion-some (lookup k old) w))
  ]

  pub Unique-diff : (old new : Object) → Unique old → Unique new → Unique (diff deep_equal old new)
  unfolding diff
  Unique-diff old new uo un =
      Unique-append (diff_each deep_equal old new) (removed old new) (Unique-diff_each old new un)
        (Unique-removed old new uo) (apart_loops old new uo un)

  -- What a patch holds at a key: how the value of `new` is reached, or the deletion of the key.
  pub lookup-diff :
      (k : Bytes) (old new : Object)
      → Unique old
      → Unique new
      → lookup k (diff deep_equal old new)
        ≡ or_else
            (from_new deep_equal (lookup k old) (lookup k new))
            (deletion (lookup k old) (lookup k new))
  unfolding diff
  lookup-diff k old new uo un =
      lookup-append k (diff_each deep_equal old new) (removed old new)
      ∙ (rw (lookup-diff_each deep_equal k old new un, lookup-removed k old new uo) refl)
