-- ===== src/State/MergePatch/Topics.antt =====
-- mergepatch.go's FilterTopics: a client that follows some of the topics.
use cuebooth.Prelude.{
  ◌≡◌, refl, ap, ◌∙◌, Bool, true, false, Option, none, Bytes, if◌then◌else◌, List, Bool-cases, inl,
  inr,
}
use cuebooth.Bytes.{equal}
use cuebooth.Bytes.Equal.{equal→eq}
use cuebooth.State.Json.{Json, obj, Object, end, field, lookup, Unique, IsCleanObject}
use cuebooth.State.Json.Same.{Same, same_obj, SameAt, same_fields}
use cuebooth.State.MergePatch.{diff, has_topic, filter_topics}
use cuebooth.State.MergePatch.Client.{apply_fields}
use cuebooth.State.MergePatch.Lookup.{applied, lookup-apply_fields, Unique-diff}
use cuebooth.State.MergePatch.Follows.{diff_follows}
use cuebooth.State.MergePatch.Follows.Fields.{IsCleanObject-Unique}

pub lookup-filter_topics :
    (k : Bytes) (topics : List Bytes) (o : Object)
    → lookup k (filter_topics topics o) ≡ (if has_topic topics k then lookup k o else none)
unfolding lookup filter_topics
lookup-filter_topics k topics end = elim (Bool-cases (has_topic topics k)) [
  | inl has ↦ rw has refl
  | inr lacks ↦ rw lacks refl
]
lookup-filter_topics k topics (field j v o) = elim (Bool-cases (equal j k)) [
  | inl here ↦
      let e = ap (has_topic topics) (equal→eq j k here) in
      elim (Bool-cases (has_topic topics k)) [
        | inl has ↦ rw (e ∙ has, has, here) refl
        | inr lacks ↦ rw (e ∙ lacks, lacks) (rw lacks at (lookup-filter_topics k topics o))
      ]
  | inr other ↦ elim (Bool-cases (has_topic topics j)) [
    | inl kept ↦ rw (kept, other) (lookup-filter_topics k topics o)
    | inr left ↦ rw (left, other) (lookup-filter_topics k topics o)
  ]
]

pub Unique-filter_topics :
    (topics : List Bytes) (o : Object) → Unique o → Unique (filter_topics topics o)
unfolding filter_topics
Unique-filter_topics topics end u = tt
Unique-filter_topics topics (field k v o) u = elim (Bool-cases (has_topic topics k)) [
  | inl has ↦
      rw has (
        (lookup-filter_topics k topics o ∙ (rw (has, u.0) refl), Unique-filter_topics topics o u.1))
  | inr lacks ↦ rw lacks (Unique-filter_topics topics o u.1)
]

module _ (deep_equal : Json → Json → Bool)
    (deep_equal-Same : (v w : Json) → deep_equal v w ≡ true → Same v w) where
  -- At a key of a topic, and at any other.
  scoped :
      (k : Bytes) (has : Bool) (c : Option Json) (old new : Object)
      → SameAt c (if has then lookup k old else none)
      → IsCleanObject old
      → IsCleanObject new
      → SameAt
          (applied (if has then lookup k (diff deep_equal old new) else none) c)
          (if has then lookup k new else none)
  unfolding applied
  scoped k true c old new s co cn = diff_follows deep_equal deep_equal-Same c old new k s co cn
  scoped k false c old new s co cn = s

  -- A client that holds the old state, as far as its topics go, and folds in the patch, as far as
  -- its topics go, holds the new state as far as its topics go. Both states are free of null fields
  -- and of keys that stand twice, and DeepEqual holds of equal values only.
  pub apply_fields-filter_topics :
      (topics : List Bytes) (copy old new : Object)
      → Same (obj copy) (obj (filter_topics topics old))
      → IsCleanObject old
      → IsCleanObject new
      → Same
          (obj (apply_fields copy (filter_topics topics (diff deep_equal old new))))
          (obj (filter_topics topics new))
  apply_fields-filter_topics topics copy old new s co cn =
      let u =
        Unique-diff deep_equal old new (IsCleanObject-Unique old co)
          (IsCleanObject-Unique new cn) in
      same_obj (λ k.
        rw
          (
            lookup-apply_fields k copy (filter_topics topics (diff deep_equal old new))
                (Unique-filter_topics topics (diff deep_equal old new) u),
            lookup-filter_topics k topics (diff deep_equal old new),
            lookup-filter_topics k topics new,
          )
          (scoped k (has_topic topics k) (lookup k copy) old new
            (rw (lookup-filter_topics k topics old) at (same_fields s k)) co cn))
