-- ===== src/Api/Surface/Delivered.antt =====
-- What a connected client shows of surface.go's cache, its queue and the client included.
use cuebooth.Prelude.{ℕ, ◌≤◌, ◌≡◌, List, [], ◌∷◌, if◌then◌else◌, Bytes}
use cuebooth.Api.SendQueue.{SurfaceFrame}
use cuebooth.Api.Surface.{SurfaceLayoutFrame, SurfaceKeyFrame, Sent, layout_sent, key_sent}
use cuebooth.Api.Surface.Follows.{Follows}

-- The layouts among surface frames come in the order of their sequences.
abbrev pub Rise : ℕ → List SurfaceFrame → Type 0
Rise lo [] = Unit {0}
Rise lo (f ∷ fs) = if f.layout then (lo ≤ f.seq) × Rise f.seq fs else Rise lo fs

module _ (marshal : SurfaceKeyFrame → Bytes) (marshal_layout : SurfaceLayoutFrame → Bytes) where
  -- The layouts among what is sent are of one sequence.
  abbrev AllAt : ℕ → List Sent → Type 0
  AllAt n [] = Unit {0}
  AllAt n (layout_sent l ∷ ss) = (l.seq ≡ n) × AllAt n ss
  AllAt n (key_sent f ∷ ss) = AllAt n ss
