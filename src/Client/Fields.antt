-- ===== src/Client/Fields.antt =====
-- surface_state.dart, the images apart: the sequence and the last frame of one key, from which its row,
-- column, type, colour and pressed flag are. The client itself, with the images, is in Client.
use cuebooth.Prelude.{ℕ, Option, none, some, leb, ◌==◌, if◌then◌else◌, List, [], ◌∷◌, Bytes}
use cuebooth.Api.SendQueue.{SurfaceFrame}

abbrev pub Cell : Type 0
Cell = Option (ℕ × Bytes)

-- As applyLayout, at one key: a cell at or below the layout's sequence is dropped.
unfoldable pub apply_layout : ℕ → Cell → Cell
apply_layout seq none = none
apply_layout seq (some (last, image)) = if leb last seq then none else some (last, image)

-- As applyKey, at its own key: a sequence that is not newer is ignored.
unfoldable pub apply_key : ℕ → Bytes → Cell → Cell
apply_key seq image none = some (seq, image)
apply_key seq image (some (last, held)) =
    if leb seq last then some (last, held) else some (seq, image)

unfoldable pub apply_frame : ℕ → Cell → SurfaceFrame → Cell
unfolding apply_layout apply_key
apply_frame k c f =
    if f.layout then apply_layout f.seq c else if f.key == k then apply_key f.seq f.payload c else c

-- The frames of a connection in the order in which it delivers them.
abbrev pub apply_frames : ℕ → Cell → List SurfaceFrame → Cell
apply_frames k c [] = c
apply_frames k c (f ∷ fs) = apply_frames k (apply_frame k c f) fs

-- The layout frame that set the grid's dimensions.
abbrev pub apply_dimensions : Option Bytes → List SurfaceFrame → Option Bytes
apply_dimensions d [] = d
apply_dimensions d (f ∷ fs) = apply_dimensions (if f.layout then some f.payload else d) fs
