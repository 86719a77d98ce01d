-- ===== src/Client.antt =====
-- client/lib/services/surface_state.dart: what the Flutter client holds of the surface, read at one
-- key. `_keys[key]` with its `_seq[key]` is a held key, and the rows, columns and bitmap size are those
-- of the last layout frame applied. A key's row, column, type, colour and pressed flag are those of the
-- frame that set it. The bitmap is decoded later: the image here is the one that is there once the
-- decoding has ended. `image_of` gives the image of a frame's bitmap, or none where the frame has no
-- bitmap or it cannot be decoded.
pub mod Fields
use cuebooth.Prelude.{
  ℕ, Bool, false, Option, none, some, leb, ◌==◌, if◌then◌else◌, List, [], ◌∷◌, Bytes,
}
use cuebooth.Api.SendQueue.{SurfaceFrame}

pub record SurfaceKey : Type 0 where
  pub seq : ℕ
  pub frame : Bytes
  pub image : Option Bytes

-- applyLayout, at one key: a key at or below the layout's sequence is dropped.
unfoldable pub apply_layout : ℕ → Option SurfaceKey → Option SurfaceKey
apply_layout seq none = none
apply_layout seq (some held) = if leb held.seq seq then none else some held

-- `image: _keys[key]?.image`
abbrev pub carried : Option SurfaceKey → Option Bytes
carried none = none
carried (some held) = held.image

-- What _decodeBitmap leaves: the frame's own image, or the one that was carried forward.
abbrev pub decoded : Option Bytes → Option Bytes → Option Bytes
decoded none before = before
decoded (some image) before = some image

-- `last != null && seq <= last`
abbrev pub is_stale : ℕ → Option SurfaceKey → Bool
is_stale seq none = false
is_stale seq (some held) = leb seq held.seq

module _ (image_of : Bytes → Option Bytes) where
  -- applyKey, at its own key, with the decoding.
  unfoldable pub apply_key : ℕ → Bytes → Option SurfaceKey → Option SurfaceKey
  apply_key seq frame before =
      if is_stale seq before
      then before
      else some
          (record { seq = seq; frame = frame; image = decoded (image_of frame) (carried before) })

  unfoldable pub apply_frame : ℕ → Option SurfaceKey → SurfaceFrame → Option SurfaceKey
  unfolding apply_layout apply_key
  apply_frame k c f =
      if f.layout
      then apply_layout f.seq c
      else if f.key == k
      then apply_key f.seq f.payload c
      else c

  -- The frames of a connection in the order in which it delivers them.
  abbrev pub apply_frames : ℕ → Option SurfaceKey → List SurfaceFrame → Option SurfaceKey
  apply_frames k c [] = c
  apply_frames k c (f ∷ fs) = apply_frames k (apply_frame k c f) fs
