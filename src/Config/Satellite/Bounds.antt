-- ===== src/Config/Satellite/Bounds.antt =====
-- config.go's check of the satellite table, and the surface that NewSatellite makes of it.
use cuebooth.Prelude.{
  ℕ, zero, suc, ◌*◌, ◌%◌, ◌^◌, ◌≤◌, ◌<◌, ◌≡◌, refl, ◌⊎◌, inl, inr, true, false, none, ltb, ℤ, pos,
  negsuc, arith, Bool-cases,
}
use cuebooth.Bytes.{contains_any}
use cuebooth.Config.Satellite.{
  SatelliteConfig, disabled, separators, from_bits, is_negative, exceeds, product, is_too_many,
  is_bad_size, validate, validate_enabled,
}

mul_bound : (r k b : ℕ) → k ≤ b → r * k ≤ r * b
mul_bound zero k b h = omega arith
mul_bound (suc r) k b h = let ih = mul_bound r k b h in omega (arith, ih, h)

-- Below the limit on each side the product does not wrap.
product_exact : (r k : ℕ) → r ≤ 256 → k ≤ 256 → product (pos r) (pos k) ≡ pos (r * k)
unfolding product from_bits
product_exact r k hr hk =
    let b : r * k ≤ r * 256 = mul_bound r k 256 hk in
    let c : r * k < 2 ^ 63 = omega (arith, b, hr) in
    let d : (r * k) % 2 ^ 64 ≡ r * k = omega (arith, c) in
    let e : ltb (r * k) (2 ^ 63) ≡ true = ground (arith, c) in rw (d, e) refl

-- A grid that is within the limits, and a bitmap size that is: the default, or one that Companion
-- takes.
pub record IsBounded (s : SatelliteConfig) (rows cols size : ℕ) : Type 0 where
  pub rows_given : s.rows ≡ pos rows
  pub cols_given : s.cols ≡ pos cols
  pub size_given : s.bitmap_size ≡ pos size
  pub rows_bound : rows ≤ 256
  pub cols_bound : cols ≤ 256
  pub keys_bound : rows * cols ≤ 256
  pub size_bound : size ≤ 256
  pub size_usable : (size ≡ 0) ⊎ (5 ≤ size)

grid_bounded :
    (r k : ℕ) → is_too_many (pos r) (pos k) ≡ false → (r ≤ 256) × (k ≤ 256) × (r * k ≤ 256)
unfolding is_too_many
grid_bounded r k e = elim (Bool-cases (ltb 256 r)) [
  | inl over ↦ cc (rw over at e)
  | inr low ↦ elim (Bool-cases (ltb 256 k)) [
    | inl over ↦ cc (rw (low, over) at e)
    | inr few ↦
        let hr : r ≤ 256 = ground (arith, low) in
        let hk : k ≤ 256 = ground (arith, few) in
        let prod : ltb 256 (r * k) ≡ false = rw (low, few, product_exact r k hr hk) at e in
        (hr, hk, ground (arith, prod))
  ]
]

size_bounded :
    (n : ℕ)
    → is_bad_size (pos n) ≡ false
    → exceeds (pos n) 256 ≡ false
    → (n ≤ 256) × ((n ≡ 0) ⊎ (5 ≤ n))
unfolding is_bad_size
size_bounded n e f = (ground arith, ground arith)

-- What the check has found of the parts of a table that it takes.
passed :
    (s : SatelliteConfig)
    → validate_enabled s ≡ none
    → (contains_any s.device_id separators ≡ false)
      × (is_negative s.rows ≡ false)
      × (is_negative s.cols ≡ false)
      × (is_too_many s.rows s.cols ≡ false)
      × (is_bad_size s.bitmap_size ≡ false)
      × (exceeds s.bitmap_size 256 ≡ false)
unfolding validate_enabled
passed s e = ground (arith, e)

bounds_of :
    (rows cols size : ℤ)
    → is_negative rows ≡ false
    → is_negative cols ≡ false
    → is_too_many rows cols ≡ false
    → is_bad_size size ≡ false
    → exceeds size 256 ≡ false
    → (r k n : ℕ) × (rows ≡ pos r)
      × (cols ≡ pos k)
      × (size ≡ pos n)
      × ((r ≤ 256) × (k ≤ 256) × (r * k ≤ 256))
      × ((n ≤ 256) × ((n ≡ 0) ⊎ (5 ≤ n)))
unfolding is_bad_size
bounds_of (pos r) (pos k) (pos n) a b c d e =
    (r, k, n, refl, refl, refl, grid_bounded r k c, size_bounded n d e)
bounds_of (pos r) (pos k) (negsuc n) a b c d e = cc
bounds_of (pos r) (negsuc k) size a b c d e = cc
bounds_of (negsuc r) cols size a b c d e = cc

-- A satellite table that is not disabled and passes the check has a grid of at most 256 keys, as
-- integers, so that the product that was checked did not wrap, with at most 256 rows and columns, a
-- bitmap size of zero or of 5 to 256, and an identifier with no separator.
pub validate-IsBounded :
    (s : SatelliteConfig)
    → disabled s ≡ false
    → validate s ≡ none
    → (contains_any s.device_id separators ≡ false)
      × ((rows cols size : ℕ) × IsBounded s rows cols size)
unfolding validate
validate-IsBounded s on e =
    let (id, row, col, grid, size, limit) = passed s (rw on at e) in
    let (r, k, n, er, ek, en, (hr, hk, hg), (hn, usable)) =
      bounds_of s.rows s.cols s.bitmap_size row col grid size limit in
    (
      id,
      (
        r,
        k,
        n,
        record {
          rows_given = er;
          cols_given = ek;
          size_given = en;
          rows_bound = hr;
          cols_bound = hk;
          keys_bound = hg;
          size_bound = hn;
          size_usable = usable;
        },
      ),
    )
