-- ===== src/State/Json/Same.antt =====
-- Two JSON values are the same when they agree at every key and place, whatever order their fields
-- stand in.
use cuebooth.Prelude.{ℕ, Bool, true, false, if◌then◌else◌, Option, none, some, Bytes}
use cuebooth.Bytes.{equal}
use cuebooth.State.Json.{
  end, field, Json, null, bool, num, str, arr, obj, Items, nil, cons, Object, lookup,
}

mutual
  pub data Same : Json → Json → Type 0 where
    same_null : Same null null
    same_bool : (b : Bool) → Same (bool b) (bool b)
    same_num : (n : ℕ) → Same (num n) (num n)
    same_str : (s : Bytes) → Same (str s) (str s)
    same_arr : {xs ys : Items} → SameItems xs ys → Same (arr xs) (arr ys)
    same_obj :
        {o p : Object} → ((k : Bytes) → SameAt (lookup k o) (lookup k p)) → Same (obj o) (obj p)

  pub data SameAt : Option Json → Option Json → Type 0 where
    absent : SameAt none none
    present : {v w : Json} → Same v w → SameAt (some v) (some w)

  pub data SameItems : Items → Items → Type 0 where
    same_nil : SameItems nil nil
    same_cons :
        {v w : Json} {xs ys : Items}
        → Same v w
        → SameItems xs ys
        → SameItems (cons v xs) (cons w ys)

at_refl :
    (here : Bool) (v : Json) (later : Option Json)
    → Same v v
    → SameAt later later
    → SameAt (if here then some v else later) (if here then some v else later)
at_refl true v later s t = present s
at_refl false v later s t = t

mutual
  unfolding lookup

  pub Same-refl : (v : Json) → Same v v
  Same-refl null = same_null
  Same-refl (bool b) = same_bool b
  Same-refl (num n) = same_num n
  Same-refl (str s) = same_str s
  Same-refl (arr xs) = same_arr (SameItems-refl xs)
  Same-refl (obj o) = same_obj (λ k. fields_refl o k)

  pub fields_refl : (o : Object) (k : Bytes) → SameAt (lookup k o) (lookup k o)
  fields_refl end k = absent
  fields_refl (field j v o) k = at_refl (equal j k) v (lookup k o) (Same-refl v) (fields_refl o k)

  pub SameItems-refl : (xs : Items) → SameItems xs xs
  SameItems-refl nil = same_nil
  SameItems-refl (cons v xs) = same_cons (Same-refl v) (SameItems-refl xs)

mutual
  pub Same-trans : {u v w : Json} → Same u v → Same v w → Same u w
  Same-trans same_null g = g
  Same-trans (same_bool b) g = g
  Same-trans (same_num n) g = g
  Same-trans (same_str s) g = g
  Same-trans (same_arr f) (same_arr g) = same_arr (SameItems-trans f g)
  Same-trans (same_obj f) (same_obj g) = same_obj (λ k. SameAt-trans (f k) (g k))

  pub SameAt-trans : {u v w : Option Json} → SameAt u v → SameAt v w → SameAt u w
  SameAt-trans absent g = g
  SameAt-trans (present f) (present g) = present (Same-trans f g)

  SameItems-trans : {us vs ws : Items} → SameItems us vs → SameItems vs ws → SameItems us ws
  SameItems-trans same_nil g = g
  SameItems-trans (same_cons f fs) (same_cons g gs) =
      same_cons (Same-trans f g) (SameItems-trans fs gs)

pub same_fields :
    {o p : Object} → Same (obj o) (obj p) → (k : Bytes) → SameAt (lookup k o) (lookup k p)
same_fields (same_obj f) k = f k
