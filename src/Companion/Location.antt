-- ===== src/Companion/Location.antt =====
-- server/internal/companion/location.go: button coordinates "page/row/column".
pub mod RoundTrip
use cuebooth.Prelude.{
  ℕ, ◌+◌, Option, none, some, List, [], ◌∷◌, ◌++◌, ltb, if◌then◌else◌, Bytes, ℤ, pos, negsuc, ◌≡◌,
  refl,
}
use cuebooth.Bytes.{split, trim_space, atoi, print}

pub record Location : Type 0 where
  pub page : ℕ
  pub row : ℕ
  pub column : ℕ

-- The errors of ParseLocation, one for each return.
pub data Error : Type 0 where
  want_three_parts not_an_integer negative page_below_one : Error

pub data Result (A : Type 0) : Type 0 where
  ok : A → Result A
  err : Error → Result A

-- An early return keeps its error.
abbrev pub proceed : {A B : Type 0} → (A → Result B) → Result A → Result B
proceed next (err e) = err e
proceed next (ok a) = next a

pub proceed-ok :
    {A B : Type 0} (next : A → Result B) {b : B} (r : Result A)
    → proceed next r ≡ ok b
    → (a : A) × (r ≡ ok a) × (next a ≡ ok b)
proceed-ok next (err e) h = cc
proceed-ok next (ok a) h = (a, refl, h)

-- One round of the loop over the parts.
abbrev checked : Option ℤ → Result ℕ
checked none = err not_an_integer
checked (some (negsuc n)) = err negative
checked (some (pos n)) = ok n

component : Bytes → Result ℕ
component p = checked (atoi (trim_space p))

on_a_page : ℕ → ℕ → ℕ → Result Location
on_a_page page row column =
    if ltb page 1
    then err page_below_one
    else ok (record { page = page; row = row; column = column })

parse_parts : List Bytes → Result Location
unfolding on_a_page
parse_parts (p ∷ r ∷ c ∷ []) =
    proceed (λ page. proceed (λ row. proceed (on_a_page page row) (component c)) (component r))
      (component p)
parse_parts _ = err want_three_parts

unfoldable pub parse_location : Bytes → Result Location
unfolding parse_parts component
parse_location s = parse_parts (split 47 s)

unfoldable pub to_string : Location → Bytes
to_string l = print l.page ++ 47 ∷ (print l.row ++ 47 ∷ print l.column)
