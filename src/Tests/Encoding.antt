-- ===== src/Tests/Encoding.antt =====
-- A marshaller of frames for the tests: operations on a stack, of two numbers each, and their reader.
use cuebooth.Prelude.{
  ℕ, zero, suc, ◌≡◌, refl, ◌∙◌, true, false, Option, none, some, List, [], ◌∷◌, ◌++◌, Bytes,
}
use mathlib.Core.List.{append_assoc}
use cuebooth.State.Json.{Json, null, bool, num, str, arr, obj, Items, nil, cons, Object, end, field}
use cuebooth.Api.Hub.Synced.{Message, state_message, delta_message}

pub data Entry : Type 0 where
  value : Json → Entry
  items : Items → Entry
  object : Object → Entry
  text : Bytes → Entry
  read_message : Message → Entry

pub data Op : Type 0 where
  push_null push_true push_false push_num : Op
  push_text add_byte make_str : Op
  push_nil add_item make_arr : Op
  push_end add_field make_obj : Op
  make_state make_delta : Op

-- The number of an operation, and back.
abbrev tag : Op → ℕ
tag push_null = 0
tag push_true = 1
tag push_false = 2
tag push_num = 3
tag push_text = 4
tag add_byte = 5
tag make_str = 6
tag push_nil = 7
tag add_item = 8
tag make_arr = 9
tag push_end = 10
tag add_field = 11
tag make_obj = 12
tag make_state = 13
tag make_delta = 14

abbrev ops : List Op
ops =
    push_null ∷ push_true ∷ push_false ∷ push_num ∷ push_text ∷ add_byte ∷ make_str ∷ push_nil
    ∷ add_item ∷ make_arr ∷ push_end ∷ add_field ∷ make_obj ∷ make_state ∷ []

abbrev nth : List Op → ℕ → Op
nth [] n = make_delta
nth (o ∷ rest) zero = o
nth (o ∷ rest) (suc n) = nth rest n

abbrev exec : Op → ℕ → List Entry → List Entry
exec push_null a st = value null ∷ st
exec push_true a st = value (bool true) ∷ st
exec push_false a st = value (bool false) ∷ st
exec push_num a st = value (num a) ∷ st
exec push_text a st = text [] ∷ st
exec add_byte a (text s ∷ st) = text (a ∷ s) ∷ st
exec make_str a (text s ∷ st) = value (str s) ∷ st
exec push_nil a st = items nil ∷ st
exec add_item a (value v ∷ items xs ∷ st) = items (cons v xs) ∷ st
exec make_arr a (items xs ∷ st) = value (arr xs) ∷ st
exec push_end a st = object end ∷ st
exec add_field a (value v ∷ text k ∷ object o ∷ st) = object (field k v o) ∷ st
exec make_obj a (object o ∷ st) = value (obj o) ∷ st
exec make_state a (object o ∷ st) = read_message (state_message a o) ∷ st
exec make_delta a (object o ∷ st) = read_message (delta_message a o) ∷ st
exec _ a st = st

abbrev run : Bytes → List Entry → List Entry
run (t ∷ a ∷ rest) st = run rest (exec (nth ops t) a st)
run _ st = st

abbrev one : Op → ℕ → Bytes
one o a = tag o ∷ a ∷ []

abbrev text_bytes : Bytes → Bytes
text_bytes [] = one push_text 0
text_bytes (c ∷ s) = text_bytes s ++ one add_byte c

abbrev mutual
  json_bytes : Json → Bytes
  json_bytes null = one push_null 0
  json_bytes (bool true) = one push_true 0
  json_bytes (bool false) = one push_false 0
  json_bytes (num n) = one push_num n
  json_bytes (str s) = text_bytes s ++ one make_str 0
  json_bytes (arr xs) = items_bytes xs ++ one make_arr 0
  json_bytes (obj o) = object_bytes o ++ one make_obj 0

  items_bytes : Items → Bytes
  items_bytes nil = one push_nil 0
  items_bytes (cons v xs) = items_bytes xs ++ (json_bytes v ++ one add_item 0)

  object_bytes : Object → Bytes
  object_bytes end = one push_end 0
  object_bytes (field k v o) = object_bytes o ++ (text_bytes k ++ (json_bytes v ++ one add_field 0))

text_read :
    (s rest : Bytes) (st : List Entry) → run (text_bytes s ++ rest) st ≡ run rest (text s ∷ st)
text_read [] rest st = refl
text_read (c ∷ s) rest st =
    rw (append_assoc (text_bytes s) (one add_byte c) rest) (text_read s (one add_byte c ++ rest) st)

mutual
  json_read :
      (v : Json) (rest : Bytes) (st : List Entry)
      → run (json_bytes v ++ rest) st ≡ run rest (value v ∷ st)
  json_read null rest st = refl
  json_read (bool true) rest st = refl
  json_read (bool false) rest st = refl
  json_read (num n) rest st = refl
  json_read (str s) rest st =
      rw (append_assoc (text_bytes s) (one make_str 0) rest)
        (text_read s (one make_str 0 ++ rest) st)
  json_read (arr xs) rest st =
      rw (append_assoc (items_bytes xs) (one make_arr 0) rest)
        (items_read xs (one make_arr 0 ++ rest) st)
  json_read (obj o) rest st =
      rw (append_assoc (object_bytes o) (one make_obj 0) rest)
        (object_read o (one make_obj 0 ++ rest) st)

  items_read :
      (xs : Items) (rest : Bytes) (st : List Entry)
      → run (items_bytes xs ++ rest) st ≡ run rest (items xs ∷ st)
  items_read nil rest st = refl
  items_read (cons v xs) rest st =
      rw
        (
          append_assoc (items_bytes xs) (json_bytes v ++ one add_item 0) rest,
          append_assoc (json_bytes v) (one add_item 0) rest,
        )
        (items_read xs (json_bytes v ++ (one add_item 0 ++ rest)) st
          ∙ json_read v (one add_item 0 ++ rest) (items xs ∷ st))

  object_read :
      (o : Object) (rest : Bytes) (st : List Entry)
      → run (object_bytes o ++ rest) st ≡ run rest (object o ∷ st)
  object_read end rest st = refl
  object_read (field k v o) rest st =
      rw
        (
          append_assoc (object_bytes o) (text_bytes k ++ (json_bytes v ++ one add_field 0)) rest,
          append_assoc (text_bytes k) (json_bytes v ++ one add_field 0) rest,
          append_assoc (json_bytes v) (one add_field 0) rest,
        )
        (object_read o (text_bytes k ++ (json_bytes v ++ (one add_field 0 ++ rest))) st
          ∙ text_read k (json_bytes v ++ (one add_field 0 ++ rest)) (object o ∷ st)
          ∙ json_read v (one add_field 0 ++ rest) (text k ∷ object o ∷ st))

abbrev message_of : List Entry → Option Message
message_of (read_message m ∷ st) = some m
message_of _ = none

unfoldable pub read : Bytes → Option Message
read payload = message_of (run payload [])

unfoldable pub marshal_state : ℕ → Object → Bytes
marshal_state rev o = object_bytes o ++ one make_state rev

unfoldable pub marshal_delta : ℕ → Object → Bytes
marshal_delta rev o = object_bytes o ++ one make_delta rev

pub read-marshal_state :
    (rev : ℕ) (o : Object) → read (marshal_state rev o) ≡ some (state_message rev o)
unfolding read marshal_state marshal_delta
read-marshal_state rev o = rw (object_read o (one make_state rev) []) refl

pub read-marshal_delta :
    (rev : ℕ) (o : Object) → read (marshal_delta rev o) ≡ some (delta_message rev o)
unfolding read marshal_state marshal_delta
read-marshal_delta rev o = rw (object_read o (one make_delta rev) []) refl
