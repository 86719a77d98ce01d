-- ===== src/State/Json/Fields.antt =====
-- What the operations on an object's fields do to a lookup.
use cuebooth.Prelude.{
  ◌≡◌, refl, sym, subst, true, false, Option, none, some, Bytes, if◌then◌else◌, Bool-cases, inl,
  inr,
}
use cuebooth.Bytes.{equal}
use cuebooth.Bytes.Equal.{equal→eq, equal_self}
use cuebooth.State.Json.{Json, Object, end, field, lookup, set, remove, append}

-- The test does not mind which side a key stands on.
pub equal_sym : (j k : Bytes) → equal j k ≡ false → equal k j ≡ false
equal_sym j k h = elim (Bool-cases (equal k j)) [
  | inl same ↦
      let e = equal→eq k j same in cc (subst (λ x. equal x k ≡ false) (sym e) h, equal_self k)
  | inr other ↦ other
]

-- Two keys that equal a third one are equal.
equal_other : (i j k : Bytes) → equal i j ≡ true → equal j k ≡ false → equal i k ≡ false
equal_other i j k same h = subst (λ x. equal x k ≡ false) (sym (equal→eq i j same)) h

pub lookup_self : (k : Bytes) (v : Json) (o : Object) → lookup k (field k v o) ≡ some v
unfolding lookup
lookup_self k v o = rw (equal_self k) refl

pub lookup-set :
    (k j : Bytes) (v : Json) (o : Object)
    → lookup k (set j v o) ≡ (if equal j k then some v else lookup k o)
unfolding lookup set
lookup-set k j v end = refl
lookup-set k j v (field i w o) = elim (Bool-cases (equal i j)) [
  | inl same ↦ elim (Bool-cases (equal j k)) [
    | inl here ↦
        let there = subst (λ x. equal x k ≡ true) (sym (equal→eq i j same)) here in
        rw (same, here, there) refl
    | inr other ↦ rw (same, other, equal_other i j k same other) refl
  ]
  | inr differs ↦ elim (Bool-cases (equal i k)) [
    | inl here ↦
        let e = equal→eq i k here in
        let other = equal_sym i j differs in
        rw (differs, here, subst (λ x. equal j x ≡ false) e other) refl
    | inr elsewhere ↦ rw (differs, elsewhere) (lookup-set k j v o)
  ]
]

pub lookup-remove :
    (k j : Bytes) (o : Object) → lookup k (remove j o) ≡ (if equal j k then none else lookup k o)
unfolding lookup remove
lookup-remove k j end = elim (Bool-cases (equal j k)) [
  | inl here ↦ rw here refl
  | inr other ↦ rw other refl
]
lookup-remove k j (field i w o) = elim (Bool-cases (equal i j)) [
  | inl same ↦ elim (Bool-cases (equal j k)) [
    | inl here ↦ rw (same, here) (rw here at (lookup-remove k j o))
    | inr other ↦ rw (same, other, equal_other i j k same other) (rw other at (lookup-remove k j o))
  ]
  | inr differs ↦ elim (Bool-cases (equal i k)) [
    | inl here ↦
        let e = equal→eq i k here in
        let other = equal_sym i j differs in
        rw (differs, here, subst (λ x. equal j x ≡ false) e other) refl
    | inr elsewhere ↦ rw (differs, elsewhere) (lookup-remove k j o)
  ]
]

-- A lookup in two objects, one behind the other.
abbrev pub or_else : Option Json → Option Json → Option Json
or_else none later = later
or_else (some v) later = some v

pub lookup-append :
    (k : Bytes) (o p : Object) → lookup k (append o p) ≡ or_else (lookup k o) (lookup k p)
unfolding lookup append
lookup-append k end p = refl
lookup-append k (field j v o) p = elim (Bool-cases (equal j k)) [
  | inl here ↦ rw here refl
  | inr other ↦ rw other (lookup-append k o p)
]
