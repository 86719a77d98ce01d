-- ===== src/Api/Connection/Run/Tracked.antt =====
-- client.go: the keys that a client holds, and the calls of the satellite's Press, taken or refused, for them.
use cuebooth.Prelude.{
  ℕ, ◌<◌, ◌≡◌, refl, Bool, true, false, ◌||◌, List, [], ◌∷◌, ◌==◌, if◌then◌else◌, arith,
}
use cuebooth.Api.Connection.{remove_key}

-- Whether the last call for a key, with the newest call first, was a press.
abbrev pub latched : ℕ → List (ℕ × Bool) → Bool
latched k [] = false
latched k ((key, down) ∷ calls) = if key == k then down else latched k calls

abbrev pub holds : ℕ → List ℕ → Bool
holds k [] = false
holds k (key ∷ keys) = key == k || holds k keys

holds-remove_key :
    (k key : ℕ) (keys : List ℕ) → (key == k) ≡ false → holds k (remove_key key keys) ≡ holds k keys
unfolding remove_key
holds-remove_key k key [] h = refl
holds-remove_key k key (j ∷ keys) h = ground (arith, holds-remove_key k key keys h)

removed_held :
    (k key : ℕ) (keys : List ℕ) → holds k (remove_key key keys) ≡ true → holds k keys ≡ true
unfolding remove_key
removed_held k key [] h = cc
removed_held k key (j ∷ keys) h = ground (arith, removed_held k key keys)

-- Every key that was last pressed is held, and every key that is held lies in the grid.
pub record IsTracked (grid : ℕ) (held : List ℕ) (calls : List (ℕ × Bool)) : Type 0 where
  pub latch : (k : ℕ) → latched k calls ≡ true → holds k held ≡ true
  pub inside : (k : ℕ) → holds k held ≡ true → k < grid

pub pressed-IsTracked :
    {grid : ℕ} (held : List ℕ) (calls : List (ℕ × Bool)) (key : ℕ)
    → key < grid
    → IsTracked grid held calls
    → IsTracked grid (key ∷ remove_key key held) ((key, true) ∷ calls)
pressed-IsTracked held calls key below t = record {
  latch = λ k h. ground (arith, h, t.latch k, holds-remove_key k key held);
  inside = λ k h. ground (arith, h, t.inside k, removed_held k key held);
}

pub released-IsTracked :
    {grid : ℕ} (held : List ℕ) (calls : List (ℕ × Bool)) (key : ℕ)
    → IsTracked grid held calls
    → IsTracked grid (remove_key key held) ((key, false) ∷ calls)
released-IsTracked held calls key t = record {
  latch = λ k h. ground (arith, h, t.latch k, holds-remove_key k key held);
  inside = λ k h. t.inside k (removed_held k key held h);
}

pub kept-IsTracked :
    {grid : ℕ} (held : List ℕ) (calls : List (ℕ × Bool)) (key : ℕ)
    → IsTracked grid held calls
    → IsTracked grid held ((key, false) ∷ calls)
kept-IsTracked held calls key t = record {
  latch = λ k h. ground (arith, h, t.latch k);
  inside = t.inside;
}
