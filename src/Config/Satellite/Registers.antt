-- ===== src/Config/Satellite/Registers.antt =====
-- cmd/cuebooth-server/main.go: the surface that a loaded table is turned into, and its registration.
use cuebooth.Prelude.{
  ℕ, zero, suc, ◌*◌, ◌≤◌, ◌≡◌, refl, ◌⊎◌, inl, inr, true, false, not, ◌||◌, none, some, [], ◌∷◌,
  ◌==◌, Bytes, pos, arith, Bool-cases,
}
use cuebooth.Bytes.{bytes, contains, contains_any, print}
use cuebooth.Config.Satellite.{SatelliteConfig, disabled, separators, validate}
use cuebooth.Config.Satellite.Bounds.{validate-IsBounded}
use cuebooth.Companion.Line.{parse_satellite_line, arg}
use cuebooth.Companion.Line.Quoting.{AllPlain, all_plain_lem, all_printable_lem}
use cuebooth.Companion.Satellite.{
  Config, normalize, keys_total, keys_per_row, positive_or, or_default, register_line,
}
use cuebooth.Companion.Satellite.Registration.{register_line-parsed}

-- What main hands to NewSatellite.
unfoldable pub satellite_config : SatelliteConfig → Config
satellite_config s = record {
  addr = s.addr;
  device_id = s.device_id;
  product_name = [];
  rows = s.rows;
  cols = s.cols;
  bitmap_size = s.bitmap_size;
}

plain_byte :
    (c : ℕ)
    → contains c separators ≡ false
    → (c == 92) ≡ false
    → not (c == 34 || c == 92 || c == 32) ≡ true
unfolding contains
plain_byte c e f = ground (arith, e, f)

-- An identifier with no separator and no backslash is one plain token.
separated-AllPlain :
    (id : Bytes) → contains_any id separators ≡ false → contains 92 id ≡ false → AllPlain id
unfolding contains_any contains
separated-AllPlain [] e f = tt
separated-AllPlain (c ∷ id) e f = elim (Bool-cases (contains c separators)) [
  | inl bad ↦ cc (rw bad at e)
  | inr good ↦ elim (Bool-cases (c == 92)) [
    | inl slash ↦ cc (rw slash at f)
    | inr plain ↦ (plain_byte c good plain, separated-AllPlain id (rw good at e) (rw plain at f))
  ]
]

or_default-AllPlain : (id d : Bytes) → AllPlain id → AllPlain d → AllPlain (or_default id d)
or_default-AllPlain [] d p q = q
or_default-AllPlain (c ∷ id) d p q = p

-- With a default of 4 rows and 8 columns for a zero.
default_grid :
    (r k : ℕ)
    → r ≤ 256
    → k ≤ 256
    → r * k ≤ 256
    → positive_or (pos r) 4 * positive_or (pos k) 8 ≤ 2048
default_grid zero zero a b c = omega arith
default_grid zero (suc k) a b c = omega arith
default_grid (suc r) zero a b c = omega arith
default_grid (suc r) (suc k) a b c = omega arith

-- A satellite table that is not disabled, passes the check and has no backslash in its identifier
-- gives a surface of at most 2048 keys, 256 of them where neither dimension is left at zero, and
-- the line that registers it reads back as the command with its identifier, or the default one,
-- and its numbers of keys.
pub validate-register_line :
    (s : SatelliteConfig)
    → disabled s ≡ false
    → validate s ≡ none
    → contains 92 s.device_id ≡ false
    → let c = normalize (satellite_config s) in
      let (cmd, args) = parse_satellite_line (register_line c) in
      (cmd ≡ bytes "ADD-DEVICE")
      × (arg (bytes "DEVICEID") args ≡ some (or_default s.device_id (bytes "cuebooth")))
      × (arg (bytes "KEYS_TOTAL") args ≡ some (print (keys_total c)))
      × (arg (bytes "KEYS_PER_ROW") args ≡ some (print (keys_per_row c)))
      × (keys_total c ≤ 2048)
      × ((s.rows ≡ pos 0) ⊎ (s.cols ≡ pos 0) ⊎ (keys_total c ≤ 256))
unfolding normalize satellite_config
validate-register_line s on e plain =
    let (id, (r, k, n, b)) = validate-IsBounded s on e in
    let word =
      or_default-AllPlain s.device_id (bytes "cuebooth") (separated-AllPlain s.device_id id plain)
        (all_plain_lem (bytes "cuebooth") refl) in
    let (cmd, device, product, total, per_row, size) =
      register_line-parsed (normalize (satellite_config s)) word
        (all_printable_lem (bytes "CueBooth") refl) in
    (
      cmd,
      device,
      total,
      per_row,
      rw (b.rows_given, b.cols_given) (default_grid r k b.rows_bound b.cols_bound b.keys_bound),
      rw (b.rows_given, b.cols_given) (given r k b.keys_bound),
    )
  where
    given :
        (r k : ℕ)
        → r * k ≤ 256
        → (pos r ≡ pos 0) ⊎ (pos k ≡ pos 0) ⊎ (positive_or (pos r) 4 * positive_or (pos k) 8 ≤ 256)
    given zero k h = inl refl
    given (suc r) zero h = inr (inl refl)
    given (suc r) (suc k) h = inr (inr h)
