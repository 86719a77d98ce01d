-- ===== src/Bytes.antt =====
-- What the source uses of Go's strings and strconv, on byte strings: Split, TrimSpace, TrimRight,
-- HasPrefix, Atoi and the %d of fmt.
pub mod Decimal
pub mod Equal
pub mod Split
use cuebooth.Prelude.{
  ℕ, zero, suc, ◌+◌, ◌-◌, ◌*◌, ◌/◌, ◌%◌, ◌^◌, Bool, true, false, ◌&&◌, ◌||◌, Option, none, some,
  List, [], ◌∷◌, ◌++◌, ltb, leb, ◌==◌, if◌then◌else◌, Bytes, ℤ, pos, negsuc,
}
use Prim.Native.Char.{code}
use Prim.Native.String.{String}
use mathlib.Core.List.{reverse}

-- The bytes of an ASCII literal.
abbrev pub bytes : String → Bytes
bytes String.[] = []
bytes (String.◌∷◌ c s) = code c ∷ bytes s

abbrev pub equal : Bytes → Bytes → Bool
equal [] [] = true
equal (a ∷ s) (b ∷ t) = a == b && equal s t
equal _ _ = false

-- The spaces that strings.TrimSpace knows in ASCII text.
unfoldable pub is_space : ℕ → Bool
is_space c = c == 32 || leb 9 c && leb c 13

-- strings.ToLower and strings.EqualFold, on ASCII text.
unfoldable pub to_lower : Bytes → Bytes
to_lower [] = []
to_lower (c ∷ s) = (if leb 65 c && leb c 90 then c + 32 else c) ∷ to_lower s

unfoldable pub equal_fold : Bytes → Bytes → Bool
unfolding to_lower
equal_fold s t = equal (to_lower s) (to_lower t)

-- strings.ContainsAny, on ASCII text.
unfoldable pub contains : ℕ → Bytes → Bool
contains c [] = false
contains c (b ∷ s) = b == c || contains c s

unfoldable pub contains_any : Bytes → Bytes → Bool
unfolding contains
contains_any [] chars = false
contains_any (b ∷ s) chars = contains b chars || contains_any s chars

unfoldable pub trim_left : (ℕ → Bool) → Bytes → Bytes
trim_left p [] = []
trim_left p (c ∷ s) = if p c then trim_left p s else c ∷ s

unfoldable pub trim_right : (ℕ → Bool) → Bytes → Bytes
unfolding trim_left
trim_right p s = reverse (trim_left p (reverse s))

unfoldable pub trim_space : Bytes → Bytes
unfolding trim_left trim_right is_space
trim_space s = trim_right is_space (trim_left is_space s)

abbrev cons_part : ℕ → List Bytes → List Bytes
cons_part c [] = (c ∷ []) ∷ []
cons_part c (part ∷ parts) = (c ∷ part) ∷ parts

-- strings.Split at a one-byte separator.
unfoldable pub split : ℕ → Bytes → List Bytes
split sep [] = [] ∷ []
split sep (c ∷ s) = let rest = split sep s in if c == sep then [] ∷ rest else cons_part c rest

abbrev pub is_digit : ℕ → Bool
is_digit c = leb 48 c && leb c 57

unfoldable pub digits : ℕ → Bytes → Option ℕ
digits n [] = some n
digits n (c ∷ s) = let rest = digits (n * 10 + (c - 48)) s in if is_digit c then rest else none

abbrev pub max_int : ℕ
max_int = 2 ^ 63 - 1

-- A magnitude with its sign, where it fits an int.
signed : Bool → Option ℕ → Option ℤ
signed neg none = none
signed false (some n) = if leb n max_int then some (pos n) else none
signed true (some zero) = some (pos 0)
signed true (some (suc n)) = if leb n max_int then some (negsuc n) else none

magnitude : Bytes → Option ℕ
unfolding digits
magnitude [] = none
magnitude (c ∷ s) = digits 0 (c ∷ s)

-- strconv.Atoi: an optional sign, then digits, within 64 bits.
unfoldable pub atoi : Bytes → Option ℤ
unfolding signed magnitude
atoi [] = none
atoi (c ∷ s) =
    if c == 45
    then signed true (magnitude s)
    else if c == 43
    then signed false (magnitude s)
    else signed false (magnitude (c ∷ s))

-- %d of a natural number: `fuel` counts digits.
print_fuel : ℕ → ℕ → Bytes
print_fuel zero n = []
print_fuel (suc fuel) n =
    let front = print_fuel fuel (n / 10) in
    (if n / 10 == 0 then [] else front) ++ (48 + n % 10) ∷ []

unfoldable pub print : ℕ → Bytes
unfolding print_fuel
print n = print_fuel (suc n) n
