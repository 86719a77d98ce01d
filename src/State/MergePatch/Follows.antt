-- ===== src/State/MergePatch/Follows.antt =====
-- mergepatch.go's diff against the client's applyMergePatch.
pub mod Fields
use cuebooth.Prelude.{
  ◌≡◌, refl, subst, Bool, true, false, Option, none, some, Bytes, if◌then◌else◌, Bool-cases,
  Option-cases, inl, inr,
}
use cuebooth.Bytes.{equal}
use cuebooth.State.Json.{
  Json, null, bool, num, str, arr, obj, Object, end, field, lookup, is_null, is_empty, object_at,
  Unique, IsClean, IsCleanObject,
}
use cuebooth.State.Json.Fields.{or_else}
use cuebooth.State.Json.Same.{
  Same, same_null, same_bool, same_num, same_str, same_arr, same_obj, SameAt, absent, present,
  Same-refl, SameAt-trans, same_fields,
}
use cuebooth.State.MergePatch.{keep_sub, replace, change, diff}
use cuebooth.State.MergePatch.Client.{apply_merge_patch, apply_fields}
use cuebooth.State.MergePatch.Lookup.{
  applied, lookup-apply_fields, deletion, lookup-diff, Unique-diff,
}
use cuebooth.State.MergePatch.Follows.Fields.{
  IsCleanAt, IsCleanObject-Unique, fresh, clean_at, dropped, no_deletion, no_value, at_field,
}

module _ (deep_equal : Json → Json → Bool)
    (deep_equal-Same : (v w : Json) → deep_equal v w ≡ true → Same v w) where
  -- A client whose value at a key is the old one has the new one after the patch.
  abbrev Follows : Json → Type 0
  Follows nv =
      (c ov : Option Json)
      → SameAt c ov
      → IsCleanAt ov
      → SameAt (applied (change deep_equal ov nv) c) (some nv)

  replaced :
      (nv : Json) (c ov : Option Json)
      → is_null nv ≡ false
      → SameAt c ov
      → Same (apply_merge_patch c nv) nv
      → SameAt (applied (replace deep_equal ov nv) c) (some nv)
  unfolding applied replace
  replaced nv c none n s m = rw n (present m)
  replaced nv c (some ov) n s m = elim (Bool-cases (deep_equal ov nv)) [
    | inl same ↦ rw same (SameAt-trans s (present (deep_equal-Same ov nv same)))
    | inr differs ↦ rw (differs, n) (present m)
  ]

  -- A patch of an object's fields, or the empty patch, which is left out.
  kept :
      (co sub nm : Object)
      → Unique sub
      → ((k : Bytes) → SameAt (applied (lookup k sub) (lookup k co)) (lookup k nm))
      → SameAt (applied (keep_sub sub) (some (obj co))) (some (obj nm))
  unfolding keep_sub is_empty applied apply_merge_patch object_at lookup is_null
  kept co end nm u h = present (same_obj h)
  kept co (field j v sub) nm u h =
      present (same_obj (λ k. rw (lookup-apply_fields k co (field j v sub) u) (h k)))

  -- A client's value at one key of an object.
  pub field_follows :
      (c : Option Json) (om nm : Object) (k : Bytes)
      → SameAt c (lookup k om)
      → IsCleanObject om
      → IsCleanObject nm
      → ((nv : Json) → lookup k nm ≡ some nv → Follows nv)
      → SameAt (applied (lookup k (diff deep_equal om nm)) c) (lookup k nm)
  field_follows c om nm k s cl_om cl_nm each =
      rw
        (lookup-diff deep_equal k om nm (IsCleanObject-Unique om cl_om)
          (IsCleanObject-Unique nm cl_nm))
        (elim (Option-cases (lookup k nm)) [
          | inl gone ↦ rw gone (dropped c (lookup k om) s)
          | inr (nv, there) ↦
              rw (there, no_deletion (lookup k om) nv (change deep_equal (lookup k om) nv))
                (each nv there c (lookup k om) s (clean_at om k cl_om))
        ])

  object_follows :
      (nm : Object)
      → IsCleanObject nm
      → ((k : Bytes) (nv : Json) → lookup k nm ≡ some nv → Follows nv)
      → Follows (obj nm)
  unfolding change object_at is_null diff
  object_follows nm cl each _ _ absent co =
      replaced (obj nm) none none refl absent (fresh none (obj nm) refl cl)
  object_follows nm cl each _ _ (present (same_obj {o = c} {p = om} s)) co =
      kept c (diff deep_equal om nm) nm
        (Unique-diff deep_equal om nm (IsCleanObject-Unique om co) (IsCleanObject-Unique nm cl))
        (λ k. field_follows (lookup k c) om nm k (s k) co cl (each k))
  object_follows nm cl each _ _ (present same_null) co =
      replaced (obj nm) (some null) (some null) refl (present same_null)
        (fresh (some null) (obj nm) refl cl)
  object_follows nm cl each _ _ (present (same_bool b)) co =
      replaced (obj nm) (some (bool b)) (some (bool b)) refl (present (same_bool b))
        (fresh (some (bool b)) (obj nm) refl cl)
  object_follows nm cl each _ _ (present (same_num n)) co =
      replaced (obj nm) (some (num n)) (some (num n)) refl (present (same_num n))
        (fresh (some (num n)) (obj nm) refl cl)
  object_follows nm cl each _ _ (present (same_str x)) co =
      replaced (obj nm) (some (str x)) (some (str x)) refl (present (same_str x))
        (fresh (some (str x)) (obj nm) refl cl)
  object_follows nm cl each _ _ (present (same_arr {xs = xs} {ys = ys} s)) co =
      replaced (obj nm) (some (arr xs)) (some (arr ys)) refl (present (same_arr s))
        (fresh (some (arr xs)) (obj nm) refl cl)

  plain_follows :
      (nv : Json)
      → is_null nv ≡ false
      → ((c : Option Json) → Same (apply_merge_patch c nv) nv)
      → ((ov : Option Json) → change deep_equal ov nv ≡ replace deep_equal ov nv)
      → Follows nv
  plain_follows nv n m plain c ov s co = rw (plain ov) (replaced nv c ov n s (m c))

  mutual
    unfolding change apply_merge_patch lookup is_null

    follow : (nv : Json) → IsClean nv → is_null nv ≡ false → Follows nv
    follow (obj nm) cl n = object_follows nm cl (λ k nv there. follow_fields nm k nv cl there)
    follow null cl n = cc
    follow (bool b) cl n = plain_follows (bool b) refl (λ c. Same-refl (bool b)) (λ ov. refl)
    follow (num i) cl n = plain_follows (num i) refl (λ c. Same-refl (num i)) (λ ov. refl)
    follow (str x) cl n = plain_follows (str x) refl (λ c. Same-refl (str x)) (λ ov. refl)
    follow (arr xs) cl n = plain_follows (arr xs) refl (λ c. Same-refl (arr xs)) (λ ov. refl)

    follow_fields :
        (nm : Object) (k : Bytes) (nv : Json)
        → IsCleanObject nm
        → lookup k nm ≡ some nv
        → Follows nv
    follow_fields end k nv cl e = absurd (no_value e)
    follow_fields (field j w nm) k nv cl e =
        at_field Follows (equal j k) w (lookup k nm) nv e (follow w cl.2 cl.1)
          (follow_fields nm k nv cl.3)

  -- What a patch does to a client's value at one key.
  pub diff_follows :
      (c : Option Json) (old new : Object) (k : Bytes)
      → SameAt c (lookup k old)
      → IsCleanObject old
      → IsCleanObject new
      → SameAt (applied (lookup k (diff deep_equal old new)) c) (lookup k new)
  diff_follows c old new k s co cn =
      field_follows c old new k s co cn (λ nv there. follow_fields new k nv cn there)

  -- Folding the patch from an old state into a client's copy of it gives the client a copy of the
  -- new state, at every key and place, where both states are free of null fields and of keys that
  -- stand twice, and where DeepEqual holds of equal values only. The copy's fields may stand in any
  -- order.
  pub apply_fields-diff :
      (copy old new : Object)
      → Same (obj copy) (obj old)
      → IsCleanObject old
      → IsCleanObject new
      → Same (obj (apply_fields copy (diff deep_equal old new))) (obj new)
  apply_fields-diff copy old new s co cn =
      let u =
        Unique-diff deep_equal old new (IsCleanObject-Unique old co)
          (IsCleanObject-Unique new cn) in
      same_obj (λ k.
        rw (lookup-apply_fields k copy (diff deep_equal old new) u)
          (diff_follows (lookup k copy) old new k (same_fields s k) co cn))
