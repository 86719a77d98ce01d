-- ===== src/Bytes/Equal.antt =====
-- The test on byte strings decides equality.
use cuebooth.Prelude.{
  ◌≡◌, refl, ap₂, true, false, ◌&&◌, [], ◌∷◌, Bytes, ==→eq, ==_self, ℕ, ◌==◌, Bool,
}
use cuebooth.Bytes.{equal}

both : (a b : Bool) → (a && b) ≡ true → (a ≡ true) × (b ≡ true)
both true true h = (refl, refl)
both true false h = cc
both false b h = cc

pub equal→eq : (s t : Bytes) → equal s t ≡ true → s ≡ t
equal→eq [] [] h = refl
equal→eq [] (b ∷ t) h = cc
equal→eq (a ∷ s) [] h = cc
equal→eq (a ∷ s) (b ∷ t) h =
    let (here, rest) = both (a == b) (equal s t) h in
    ap₂ (λ (x : ℕ) (y : Bytes). x ∷ y) (==→eq a b here) (equal→eq s t rest)

pub equal_self : (s : Bytes) → equal s s ≡ true
equal_self [] = refl
equal_self (c ∷ s) = rw (==_self c) (equal_self s)
