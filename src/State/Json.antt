-- ===== src/State/Json.antt =====
-- Decoded JSON, as encoding/json gives it: a `map[string]any` is a list of fields, of which a key's
-- first one counts. A number stands for a float64 up to Go's `==`.
pub mod Fields
pub mod Same
use cuebooth.Prelude.{ℕ, ◌≡◌, Bool, true, false, Option, none, some, Bytes, if◌then◌else◌}
use cuebooth.Bytes.{equal}

mutual
  pub data Json : Type 0 where
    null : Json
    bool : Bool → Json
    num : ℕ → Json
    str : Bytes → Json
    arr : Items → Json
    obj : Object → Json

  pub data Items : Type 0 where
    nil : Items
    cons : Json → Items → Items

  pub data Object : Type 0 where
    end : Object
    field : Bytes → Json → Object → Object

-- `m[k]`
unfoldable pub lookup : Bytes → Object → Option Json
lookup k end = none
lookup k (field j v o) = if equal j k then some v else lookup k o

-- `m[k] = v`
unfoldable pub set : Bytes → Json → Object → Object
set k v end = field k v end
set k v (field j w o) = if equal j k then field j v o else field j w (set k v o)

-- `delete(m, k)`
unfoldable pub remove : Bytes → Object → Object
remove k end = end
remove k (field j v o) = let rest = remove k o in if equal j k then rest else field j v rest

-- `len(m) == 0`
unfoldable pub is_empty : Object → Bool
is_empty end = true
is_empty (field k v o) = false

unfoldable pub append : Object → Object → Object
append end p = p
append (field k v o) p = field k v (append o p)

unfoldable pub is_null : Json → Bool
is_null null = true
is_null _ = false

-- The type assertion to `map[string]any`.
unfoldable pub object_at : Option Json → Option Object
object_at (some (obj o)) = some o
object_at _ = none

-- No key has two fields.
abbrev pub Unique : Object → Type 0
Unique end = Unit {0}
Unique (field k v o) = (lookup k o ≡ none) × Unique o

-- Neither this value nor any object within the objects of it has a key twice, or a null field.
-- Arrays may hold anything.
abbrev mutual
  pub IsClean : Json → Type 0
  IsClean (obj o) = IsCleanObject o
  IsClean null = Unit {0}
  IsClean (bool b) = Unit {0}
  IsClean (num n) = Unit {0}
  IsClean (str s) = Unit {0}
  IsClean (arr xs) = Unit {0}

  pub IsCleanObject : Object → Type 0
  IsCleanObject end = Unit {0}
  IsCleanObject (field k v o) =
      (lookup k o ≡ none) × (is_null v ≡ false) × IsClean v × IsCleanObject o
