-- ===== src/State/MergePatch/Client.antt =====
-- client/lib/services/protocol.dart: applyMergePatch, by which the Flutter client folds a delta in.
use cuebooth.Prelude.{Option, none, some, if◌then◌else◌}
use cuebooth.State.Json.{
  Json, null, bool, num, str, arr, obj, Object, end, field, lookup, set, remove, is_null, object_at,
}

abbrev pub or_end : Option Object → Object
or_end none = end
or_end (some o) = o

unfoldable mutual
  pub apply_merge_patch : Option Json → Json → Json
  apply_merge_patch target (obj patch) = obj (apply_fields (or_end (object_at target)) patch)
  apply_merge_patch target null = null
  apply_merge_patch target (bool b) = bool b
  apply_merge_patch target (num n) = num n
  apply_merge_patch target (str s) = str s
  apply_merge_patch target (arr xs) = arr xs

  pub apply_fields : Object → Object → Object
  apply_fields base end = base
  apply_fields base (field k v patch) =
      apply_fields
        (if is_null v then remove k base else set k (apply_merge_patch (lookup k base) v) base)
        patch
