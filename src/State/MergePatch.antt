-- ===== src/State/MergePatch.antt =====
-- server/internal/state/mergepatch.go. reflect.DeepEqual is a parameter.
pub mod Client
pub mod Lookup
pub mod Follows
pub mod Topics
use cuebooth.Prelude.{
  Bool, true, false, Option, none, some, Bytes, if◌then◌else◌, List, [], ◌∷◌, ◌||◌,
}
use cuebooth.Bytes.{equal}
use cuebooth.State.Json.{
  Json, null, bool, num, str, arr, obj, Object, end, field, lookup, append, is_empty, object_at,
}

-- `if sub := diff(om, nm); len(sub) > 0`
unfoldable pub keep_sub : Object → Option Json
keep_sub o = if is_empty o then none else some (obj o)

abbrev pub put : Bytes → Option Json → Object → Object
put k none p = p
put k (some v) p = field k v p

-- The second loop: a key of `old` that `new` lacks becomes an explicit null.
unfoldable pub removed : Object → Object → Object
removed end new = end
removed (field k v old) new =
    put k (elim (lookup k new) [ none ↦ some null | some w ↦ none ]) (removed old new)

module _ (deep_equal : Json → Json → Bool) where
  unfoldable pub replace : Option Json → Json → Option Json
  replace none nv = some nv
  replace (some ov) nv = if deep_equal ov nv then none else some nv

  -- The first loop, over the keys of `new`, and its body: what the patch holds at a key.
  unfoldable mutual
    pub change : Option Json → Json → Option Json
    change ov (obj nm) = elim (object_at ov) [
      | some om ↦ keep_sub (append (diff_each om nm) (removed om nm))
      | none ↦ replace ov (obj nm)
    ]
    change ov null = replace ov null
    change ov (bool b) = replace ov (bool b)
    change ov (num n) = replace ov (num n)
    change ov (str s) = replace ov (str s)
    change ov (arr xs) = replace ov (arr xs)

    pub diff_each : Object → Object → Object
    diff_each old end = end
    diff_each old (field k nv new) = put k (change (lookup k old) nv) (diff_each old new)

  -- diff; the empty patch stands for nil.
  unfoldable pub diff : Object → Object → Object
  diff old new = append (diff_each old new) (removed old new)

-- FilterTopics; the empty object stands for nil.
abbrev pub has_topic : List Bytes → Bytes → Bool
has_topic [] k = false
has_topic (t ∷ topics) k = equal t k || has_topic topics k

unfoldable pub filter_topics : List Bytes → Object → Object
filter_topics topics end = end
filter_topics topics (field k v o) =
    let rest = filter_topics topics o in if has_topic topics k then field k v rest else rest
