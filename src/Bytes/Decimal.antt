-- ===== src/Bytes/Decimal.antt =====
-- Decimal numbers, printed and parsed.
use mathlib.Core.List.{reverse, reverse-cons, reverse-reverse}
use cuebooth.Prelude.{
  ℕ, zero, suc, ◌+◌, ◌-◌, ◌*◌, ◌/◌, ◌%◌, ◌≤◌, ◌<◌, ◌≡◌, ◌≢◌, refl, Bool, true, false, Option, none,
  some, [], ◌∷◌, ◌++◌, ◌==◌, if◌then◌else◌, Bytes, pos, arith, inl, inr, Bool-cases, List-cases,
}
use cuebooth.Bytes.{
  is_digit, digits, max_int, signed, magnitude, atoi, print_fuel, print, is_space, trim_left,
  trim_space,
}

abbrev digit_after : Option ℕ → ℕ → Option ℕ
digit_after none d = none
digit_after (some n) d = if is_digit d then some (n * 10 + (d - 48)) else none

digits-append : (n : ℕ) (s : Bytes) (d : ℕ) → digits n (s ++ d ∷ []) ≡ digit_after (digits n s) d
unfolding digits
digits-append n [] d = refl
digits-append n (c ∷ s) d = ground (arith, digits-append (n * 10 + (c - 48)) s d)

digits-print_fuel : (fuel n : ℕ) → n < fuel → digits 0 (print_fuel fuel n) ≡ some n
unfolding print_fuel
digits-print_fuel zero n h = absurd (omega arith)
digits-print_fuel (suc fuel) n h = elim (Bool-cases (n / 10 == 0)) [
  | inl small ↦ rw small (unfold digits in ground arith)
  | inr large ↦
      rw
        (
          large,
          digits-append 0 (print_fuel fuel (n / 10)) (48 + n % 10),
          digits-print_fuel fuel (n / 10) (ground arith),
        )
        (ground arith)
]

pub digits-print : (n : ℕ) → digits 0 (print n) ≡ some n
unfolding print
digits-print n = digits-print_fuel (suc n) n (omega arith)

abbrev pub AllDigits : Bytes → Type 0
AllDigits [] = Unit {0}
AllDigits (c ∷ s) = (is_digit c ≡ true) × AllDigits s

AllDigits-append : (s : Bytes) (d : ℕ) → AllDigits s → is_digit d ≡ true → AllDigits (s ++ d ∷ [])
AllDigits-append [] d a h = (h, tt)
AllDigits-append (c ∷ s) d a h = (a.0, AllDigits-append s d a.1 h)

print_fuel-AllDigits : (fuel n : ℕ) → AllDigits (print_fuel fuel n)
unfolding print_fuel
print_fuel-AllDigits zero n = tt
print_fuel-AllDigits (suc fuel) n = elim (Bool-cases (n / 10 == 0)) [
  | inl small ↦ rw small ((ground arith, tt))
  | inr large ↦ rw large (
      AllDigits-append (print_fuel fuel (n / 10)) (48 + n % 10) (print_fuel-AllDigits fuel (n / 10))
        (ground arith))
]

pub print-AllDigits : (n : ℕ) → AllDigits (print n)
unfolding print
print-AllDigits n = print_fuel-AllDigits (suc n) n

append-ne-nil : (s : Bytes) (d : ℕ) → s ++ d ∷ [] ≢ []
append-ne-nil [] d e = cc
append-ne-nil (c ∷ s) d e = cc

pub print-ne-nil : (n : ℕ) → print n ≢ []
unfolding print print_fuel
print-ne-nil n e = append-ne-nil (if n / 10 == 0 then [] else print_fuel n (n / 10)) (48 + n % 10) e

atoi-digits :
    (c : ℕ) (s : Bytes) (n : ℕ)
    → AllDigits (c ∷ s)
    → digits 0 (c ∷ s) ≡ some n
    → n ≤ max_int
    → atoi (c ∷ s) ≡ some (pos n)
unfolding atoi
atoi-digits c s n a e h = ground (arith, a.0, e)

-- Every int that is not negative is read back from its decimal form.
pub atoi-print : (n : ℕ) → n ≤ max_int → atoi (print n) ≡ some (pos n)
atoi-print n h = elim (List-cases (print n)) [
  | inl empty ↦ absurd (print-ne-nil n empty)
  | inr (c, s, e) ↦
      rw e (atoi-digits c s n (rw e at (print-AllDigits n)) (rw e at (digits-print n)) h)
]

AllDigits-reverse : (s : Bytes) → AllDigits s → AllDigits (reverse s)
AllDigits-reverse [] a = tt
AllDigits-reverse (c ∷ s) a =
    rw (reverse-cons c s) (AllDigits-append (reverse s) c (AllDigits-reverse s a.1) a.0)

trim_left-AllDigits : (s : Bytes) → AllDigits s → trim_left is_space s ≡ s
unfolding trim_left is_space
trim_left-AllDigits [] a = refl
trim_left-AllDigits (c ∷ s) a = ground (arith, a.0)

pub trim_space-AllDigits : (s : Bytes) → AllDigits s → trim_space s ≡ s
unfolding trim_space
trim_space-AllDigits s a =
    rw (trim_left-AllDigits s a, trim_left-AllDigits (reverse s) (AllDigits-reverse s a))
      (reverse-reverse s)

signed_fits : (neg : Bool) (m : Option ℕ) (n : ℕ) → signed neg m ≡ some (pos n) → n ≤ max_int
unfolding signed
signed_fits neg none n h = ground arith
signed_fits false (some m) n h = ground arith
signed_fits true (some zero) n h = ground arith
signed_fits true (some (suc m)) n h = ground arith

-- What Atoi reads fits an int.
pub atoi_fits : (s : Bytes) (n : ℕ) → atoi s ≡ some (pos n) → n ≤ max_int
unfolding atoi
atoi_fits [] n h = cc
atoi_fits (c ∷ s) n h = elim (Bool-cases (c == 45)) [
  | inl minus ↦ signed_fits true (magnitude s) n (rw minus at h)
  | inr not_minus ↦ elim (Bool-cases (c == 43)) [
    | inl plus ↦ signed_fits false (magnitude s) n (rw plus at (rw not_minus at h))
    | inr digit ↦ signed_fits false (magnitude (c ∷ s)) n (rw digit at (rw not_minus at h))
  ]
]
