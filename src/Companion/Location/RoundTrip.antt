-- ===== src/Companion/Location/RoundTrip.antt =====
-- location.go: printing and parsing.
use cuebooth.Prelude.{
  ℕ, ◌≤◌, ◌≡◌, Option, none, some, List, [], ◌∷◌, ◌++◌, Bytes, ℤ, pos, negsuc, arith,
}
use cuebooth.Bytes.{split, trim_space, atoi, print, max_int}
use cuebooth.Bytes.Decimal.{AllDigits, print-AllDigits, atoi-print, atoi_fits, trim_space-AllDigits}
use cuebooth.Bytes.Split.{Without, split-Without, split-append}
use cuebooth.Companion.Location.{
  Location, ok, component, checked, parse_parts, parse_location, to_string, proceed-ok,
}

-- Go's int holds the coordinates, and pages count from one.
pub record IsValid (l : Location) : Type 0 where
  pub on_a_page : 1 ≤ l.page
  pub page_fits : l.page ≤ max_int
  pub row_fits : l.row ≤ max_int
  pub column_fits : l.column ≤ max_int

component-print : (n : ℕ) → n ≤ max_int → component (print n) ≡ ok n
unfolding component
component-print n h = rw (trim_space-AllDigits (print n) (print-AllDigits n), atoi-print n h)

AllDigits-Without : (s : Bytes) → AllDigits s → Without 47 s
AllDigits-Without [] a = tt
AllDigits-Without (c ∷ s) a = (ground (arith, a.0), AllDigits-Without s a.1)

split-to_string :
    (l : Location) → split 47 (to_string l) ≡ print l.page ∷ print l.row ∷ print l.column ∷ []
unfolding to_string
split-to_string l =
    let plain = λ (n : ℕ). AllDigits-Without (print n) (print-AllDigits n) in
    rw (
      split-append 47 (print l.page) (print l.row ++ 47 ∷ print l.column) (plain l.page),
      split-append 47 (print l.row) (print l.column) (plain l.row),
      split-Without 47 (print l.column) (plain l.column),
    )

-- ParseLocation reads back what String prints, for every location whose page is at least 1 and
-- whose coordinates fit an int.
pub parse_location-to_string : (l : Location) → IsValid l → parse_location (to_string l) ≡ ok l
unfolding parse_location
parse_location-to_string l v =
    rw
      (
        split-to_string l,
        component-print l.page v.page_fits,
        component-print l.row v.row_fits,
        component-print l.column v.column_fits,
      )
      (ground (arith, v.on_a_page))

component_fits : (p : Bytes) (n : ℕ) → component p ≡ ok n → n ≤ max_int
unfolding component
component_fits p n h = atoi_fits (trim_space p) n (checked_pos (atoi (trim_space p)) n h)
  where
    checked_pos : (z : Option ℤ) (n : ℕ) → checked z ≡ ok n → z ≡ some (pos n)
    checked_pos none n e = cc
    checked_pos (some (pos m)) n e = cc
    checked_pos (some (negsuc m)) n e = cc

parse_parts-IsValid : (parts : List Bytes) (l : Location) → parse_parts parts ≡ ok l → IsValid l
unfolding parse_parts
parse_parts-IsValid (p ∷ r ∷ c ∷ []) l h =
    let (page, at_page, h1) = proceed-ok _ (component p) h in
    let (row, at_row, h2) = proceed-ok _ (component r) h1 in
    let (column, at_column, h3) = proceed-ok _ (component c) h2 in
    let fits_page = component_fits p page at_page in
    let fits_row = component_fits r row at_row in
    let fits_column = component_fits c column at_column in ground arith
parse_parts-IsValid parts l h = cc

-- Whatever text ParseLocation accepts, the location has a page of at least 1, and coordinates that
-- fit an int.
pub parse_location-IsValid : (s : Bytes) (l : Location) → parse_location s ≡ ok l → IsValid l
parse_location-IsValid s l h = parse_parts-IsValid (split 47 s) l (unfold parse_location in h)
