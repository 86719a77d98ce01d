-- ===== src/State/MergePatch/Follows/Fields.antt =====
-- The fields of clean objects, and a value that is taken over whole.
use cuebooth.Prelude.{
  ◌≡◌, refl, subst, Bool, true, false, Option, none, some, Bytes, if◌then◌else◌, Bool-cases,
  Option-cases, inl, inr,
}
use cuebooth.Bytes.{equal}
use cuebooth.State.Json.{
  Json, null, bool, num, str, arr, obj, Object, end, field, lookup, is_null, object_at, Unique,
  IsClean, IsCleanObject,
}
use cuebooth.State.Json.Fields.{or_else}
use cuebooth.State.Json.Same.{Same, same_obj, SameAt, absent, present, Same-refl}
use cuebooth.State.MergePatch.Client.{apply_merge_patch}
use cuebooth.State.MergePatch.Lookup.{applied, lookup-apply_fields, deletion}

abbrev pub IsCleanAt : Option Json → Type 0
IsCleanAt none = Unit {0}
IsCleanAt (some v) = IsClean v

pub IsCleanObject-Unique : (o : Object) → IsCleanObject o → Unique o
IsCleanObject-Unique end c = tt
IsCleanObject-Unique (field k v o) c = (c.0, IsCleanObject-Unique o c.3)

-- A clean object's fields are clean, and not null.
pub field-IsClean :
    (o : Object) (k : Bytes) (v : Json)
    → IsCleanObject o
    → lookup k o ≡ some v
    → IsClean v × (is_null v ≡ false)
unfolding lookup
field-IsClean end k v c e = cc
field-IsClean (field j w o) k v c e = elim (Bool-cases (equal j k)) [
  | inl here ↦
      let same : w ≡ v = cc (rw here at e) in
      (subst IsClean same c.2, subst (λ x. is_null x ≡ false) same c.1)
  | inr other ↦ field-IsClean o k v c.3 (rw other at e)
]

fresh_at :
    (here : Bool) (v : Json) (later : Option Json)
    → is_null v ≡ false
    → Same (apply_merge_patch none v) v
    → SameAt (applied later none) later
    → SameAt (applied (if here then some v else later) none) (if here then some v else later)
unfolding applied
fresh_at true v later n s t = rw n (present s)
fresh_at false v later n s t = t

-- The value that a patch sets where the client has no object is taken over whole.
mutual
  unfolding apply_merge_patch lookup object_at applied

  pub fresh :
      (t : Option Json) (v : Json) → object_at t ≡ none → IsClean v → Same (apply_merge_patch t v) v
  fresh t null n c = Same-refl null
  fresh t (bool b) n c = Same-refl (bool b)
  fresh t (num i) n c = Same-refl (num i)
  fresh t (str s) n c = Same-refl (str s)
  fresh t (arr xs) n c = Same-refl (arr xs)
  fresh t (obj o) n c =
      same_obj
        (λ k. rw (n, lookup-apply_fields k end o (IsCleanObject-Unique o c)) (fresh_fields o k c))

  fresh_fields :
      (o : Object) (k : Bytes) → IsCleanObject o → SameAt (applied (lookup k o) none) (lookup k o)
  fresh_fields end k c = absent
  fresh_fields (field j v o) k c =
      fresh_at (equal j k) v (lookup k o) c.1 (fresh none v refl c.2) (fresh_fields o k c.3)

pub clean_at : (o : Object) (k : Bytes) → IsCleanObject o → IsCleanAt (lookup k o)
clean_at o k c = elim (Option-cases (lookup k o)) [
  | inl gone ↦ rw gone tt
  | inr (v, there) ↦ rw there ((field-IsClean o k v c there).0)
]

pub dropped : (c ov : Option Json) → SameAt c ov → SameAt (applied (deletion ov none) c) none
unfolding applied is_null
dropped c none s = s
dropped c (some v) s = absent

pub no_deletion :
    (ov : Option Json) (nv : Json) (p : Option Json) → or_else p (deletion ov (some nv)) ≡ p
no_deletion none nv none = refl
no_deletion (some v) nv none = refl
no_deletion ov nv (some w) = refl

pub no_value : {v : Json} → none ≡ some v → ⊥
no_value e = cc

pub at_field :
    (P : Json → Type 0) (here : Bool) (w : Json) (later : Option Json) (v : Json)
    → (if here then some w else later) ≡ some v
    → P w
    → (later ≡ some v → P v)
    → P v
at_field P true w later v e here there = let same : w ≡ v = cc in subst P same here
at_field P false w later v e here there = there e
