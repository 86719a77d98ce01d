-- ===== src/Config/Satellite.antt =====
-- server/internal/config/config.go: the [companion.satellite] table and its check. An error is the
-- return that gives it, without the message's text.
pub mod Bounds
pub mod Registers
use cuebooth.Prelude.{
  ℕ, ◌+◌, ◌-◌, ◌*◌, ◌%◌, ◌^◌, Bool, true, false, ◌&&◌, ◌||◌, Option, none, some, List, [], ◌∷◌, ltb,
  if◌then◌else◌, Bytes, ℤ, pos, negsuc,
}
use cuebooth.Bytes.{bytes, equal, to_lower, trim_space, contains_any}

pub record SatelliteConfig : Type 0 where
  pub addr : Bytes
  pub device_id : Bytes
  pub rows : ℤ
  pub cols : ℤ
  pub bitmap_size : ℤ

pub data Error : Type 0 where
  malformed_device_id negative_grid too_many_keys bad_bitmap_size bitmap_too_large : Error

abbrev pub max_satellite_keys : ℕ
max_satellite_keys = 256

abbrev pub max_satellite_bitmap_size : ℕ
max_satellite_bitmap_size = 256

unfoldable pub disabled : SatelliteConfig → Bool
disabled s =
    let addr = to_lower (trim_space s.addr) in
    equal addr (bytes "off") || equal addr (bytes "disabled") || equal addr (bytes "none")

-- An int of 64 bits from its bits.
unfoldable pub from_bits : ℕ → ℤ
from_bits n = if ltb n (2 ^ 63) then pos n else negsuc (2 ^ 64 - 1 - n)

abbrev pub is_negative : ℤ → Bool
is_negative (pos n) = false
is_negative (negsuc n) = true

abbrev pub exceeds : ℤ → ℕ → Bool
exceeds (pos n) limit = ltb limit n
exceeds (negsuc n) limit = false

-- `s.Rows * s.Cols` of two ints that are not negative, which wraps.
unfoldable pub product : ℤ → ℤ → ℤ
product (pos m) (pos n) = from_bits ((m * n) % 2 ^ 64)
product _ _ = pos 0

-- The bytes that ContainsAny is called with.
abbrev pub separators : Bytes
separators = 32 ∷ 9 ∷ 13 ∷ 10 ∷ 34 ∷ 61 ∷ []

unfoldable pub is_too_many : ℤ → ℤ → Bool
is_too_many rows cols =
    exceeds rows max_satellite_keys
    || exceeds cols max_satellite_keys
    || exceeds (product rows cols) max_satellite_keys

unfoldable pub is_bad_size : ℤ → Bool
is_bad_size (pos n) = ltb 0 n && ltb n 5
is_bad_size (negsuc n) = true

-- The check from the device_id on, of a table that is not disabled.
unfoldable pub validate_enabled : SatelliteConfig → Option Error
validate_enabled s =
    if contains_any s.device_id separators
    then some malformed_device_id
    else if is_negative s.rows || is_negative s.cols
    then some negative_grid
    else if is_too_many s.rows s.cols
    then some too_many_keys
    else if is_bad_size s.bitmap_size
    then some bad_bitmap_size
    else if exceeds s.bitmap_size max_satellite_bitmap_size
    then some bitmap_too_large
    else none

unfoldable pub validate : SatelliteConfig → Option Error
validate s = if disabled s then none else validate_enabled s
