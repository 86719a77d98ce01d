-- ===== src/Bytes/Split.antt =====
-- Splitting and joining.
use cuebooth.Prelude.{ℕ, ◌≡◌, refl, false, [], ◌∷◌, ◌++◌, ◌==◌, Bytes, arith}
use cuebooth.Bytes.{split}

abbrev pub Without : ℕ → Bytes → Type 0
Without sep [] = Unit {0}
Without sep (c ∷ s) = ((c == sep) ≡ false) × Without sep s

pub split-Without : (sep : ℕ) (s : Bytes) → Without sep s → split sep s ≡ s ∷ []
unfolding split
split-Without sep [] w = refl
split-Without sep (c ∷ s) w = rw (w.0, split-Without sep s w.1)

pub split-append :
    (sep : ℕ) (s rest : Bytes) → Without sep s → split sep (s ++ sep ∷ rest) ≡ s ∷ split sep rest
unfolding split
split-append sep [] rest w = ground arith
split-append sep (c ∷ s) rest w = rw (w.0, split-append sep s rest w.1)
