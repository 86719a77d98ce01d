-- ===== src/Table.antt =====
-- Go maps keyed by strings, as association lists: a key's first entry counts, and the order of
-- iteration, which Go leaves open, is that of the list.
use cuebooth.Prelude.{
  ◌≡◌, refl, Option, none, some, List, [], ◌∷◌, Bytes, if◌then◌else◌, Bool-cases, inl, inr,
}
use cuebooth.Bytes.{equal}

abbrev pub Table {ℓ} : Type ℓ → Type ℓ
Table A = List (Bytes × A)

unfoldable pub lookup {ℓ} : {A : Type ℓ} → Bytes → Table A → Option A
lookup k [] = none
lookup k ((j, a) ∷ t) = if equal j k then some a else lookup k t

-- `m[k] = a`
unfoldable pub insert {ℓ} : {A : Type ℓ} → Bytes → A → Table A → Table A
insert k a [] = (k, a) ∷ []
insert k a ((j, b) ∷ t) = if equal j k then (j, a) ∷ t else (j, b) ∷ insert k a t

-- `delete(m, k)`
unfoldable pub delete {ℓ} : {A : Type ℓ} → Bytes → Table A → Table A
delete k [] = []
delete k ((j, a) ∷ t) = if equal j k then delete k t else (j, a) ∷ delete k t

pub lookup-delete {ℓ} : {A : Type ℓ} (k : Bytes) (t : Table A) → lookup k (delete k t) ≡ none
unfolding lookup delete
lookup-delete k [] = refl
lookup-delete k ((j, a) ∷ t) = elim (Bool-cases (equal j k)) [
  | inl here ↦ rw here (lookup-delete k t)
  | inr other ↦ rw (other, other) (lookup-delete k t)
]
