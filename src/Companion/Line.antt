-- ===== src/Companion/Line.antt =====
-- server/internal/companion/satellite.go: the lines of the Satellite protocol, taken apart.
pub mod Quoting
use mathlib.Core.List.{reverse}
use cuebooth.Prelude.{
  ℕ, ◌+◌, Bool, true, false, not, ◌&&◌, ◌||◌, Option, none, some, List, [], ◌∷◌, ◌++◌, leb, ◌==◌,
  if◌then◌else◌, Bytes,
}
use cuebooth.Bytes.{equal, bytes}

-- The `flush` closure: an empty token is not kept.
abbrev pub flush : Bytes → List Bytes
flush [] = []
flush (c ∷ b) = (c ∷ b) ∷ []

-- The scanner's token so far, whether it stands in quotes, and the tokens that this byte ends.
abbrev Scan : Type 0
Scan = Bytes × Bool × List Bytes

plain_byte : Bytes → Bool → ℕ → Scan
plain_byte b quoted c =
    if c == 34
    then (b, not quoted, [])
    else if c == 32 && not quoted
    then ([], quoted, flush b)
    else (b ++ c ∷ [], quoted, [])

-- One byte a round; a backslash that is not the last byte takes the next one with it.
unfoldable pub tokenize_from : Bytes → Bool → Bytes → List Bytes
unfolding plain_byte
tokenize_from b quoted [] = flush b
tokenize_from b quoted (c ∷ []) = let (b', _, ended) = plain_byte b quoted c in ended ++ flush b'
tokenize_from b quoted (c ∷ d ∷ s) =
    let escaped = tokenize_from (b ++ d ∷ []) quoted s in
    let (b', quoted', ended) = plain_byte b quoted c in
    let rest = ended ++ tokenize_from b' quoted' (d ∷ s) in if c == 92 then escaped else rest

unfoldable pub tokenize_satellite : Bytes → List Bytes
unfolding tokenize_from
tokenize_satellite s = tokenize_from [] false s

-- `args`, a later entry before an earlier one.
abbrev pub Args : Type 0
Args = List (Bytes × Bytes)

unfoldable pub arg : Bytes → Args → Option Bytes
arg k [] = none
arg k ((j, v) ∷ rest) = if equal j k then some v else arg k rest

-- `args[k]`, which is empty where the key is missing.
abbrev or_empty : Option Bytes → Bytes
or_empty none = []
or_empty (some v) = v

unfoldable pub arg_or_empty : Bytes → Args → Bytes
unfolding arg
arg_or_empty k args = or_empty (arg k args)

abbrev prepend : ℕ → Bytes × Bytes → Bytes × Bytes
prepend c (k, v) = (c ∷ k, v)

-- A token's key and value, at the first '='; without one the value is empty.
unfoldable pub cut : Bytes → Bytes × Bytes
cut [] = ([], [])
cut (c ∷ s) = if c == 61 then ([], s) else prepend c (cut s)

unfoldable pub parse_args : List Bytes → Args → Args
unfolding cut
parse_args [] args = args
parse_args (tok ∷ toks) args = parse_args toks (cut tok ∷ args)

command : List Bytes → Bytes × Args
unfolding parse_args
command [] = ([], [])
command (cmd ∷ toks) = (cmd, parse_args toks [])

unfoldable pub parse_satellite_line : Bytes → Bytes × Args
unfolding command tokenize_satellite
parse_satellite_line line = command (tokenize_satellite line)

unfoldable pub bool_wire : Bool → Bytes
bool_wire true = bytes "true"
bool_wire false = bytes "false"

lower : ℕ → ℕ
lower c = if leb 65 c && leb c 90 then c + 32 else c

-- strings.EqualFold, on ASCII.
equal_fold : Bytes → Bytes → Bool
unfolding lower
equal_fold [] [] = true
equal_fold (a ∷ s) (b ∷ t) = lower a == lower b && equal_fold s t
equal_fold _ _ = false

unfoldable pub parse_wire_bool : Bytes → Bool
unfolding equal_fold
parse_wire_bool v = equal v (bytes "1") || equal_fold v (bytes "true")
