-- ===== src/Api/SendQueue/Pictures.antt =====
-- What a client shows with its images, where every render brings its own image.
use cuebooth.Prelude.{
  ℕ, ◌≡◌, refl, ap, ◌∙◌, Bool, true, false, Option, none, some, List, [], ◌∷◌, leb, ◌==◌, Bytes,
  Bool-cases, inl, inr,
}
use cuebooth.Client.{SurfaceKey, apply_layout, apply_key, apply_frame, apply_frames, decoded}
use cuebooth.Client.Fields
use cuebooth.Client.Fields.{Cell, apply_dimensions}
use cuebooth.Api.SendQueue.{SurfaceFrame, SendQueue}
use cuebooth.Api.SendQueue.Frames.{Lanes, Call, other, key_update, re_layout, take, perform}
use cuebooth.Api.SendQueue.Handles.Pushes.{view}
use cuebooth.Api.SendQueue.Delivery.{Screen, show, delivered}

-- The dimensions that the client was last told, and the key that it holds.
abbrev pub Picture : Type 0
Picture = Option Bytes × Option SurfaceKey

abbrev pub is_given : Option Bytes → Bool
is_given none = false
is_given (some image) = true

module _ (image_of : Bytes → Option Bytes) where
  abbrev pub paint : ℕ → Picture → List SurfaceFrame → Picture
  paint k (d, c) fs = (apply_dimensions d fs, apply_frames image_of k c fs)

  -- Every render brings an image.
  abbrev pub AllImaged : List SurfaceFrame → Type 0
  AllImaged [] = Unit {0}
  AllImaged (f ∷ fs) = (f.layout ≡ false → is_given (image_of f.payload) ≡ true) × AllImaged fs

  -- The client reads a frame whenever the write loop pops one.
  abbrev pub paint_step : ℕ → Picture → Lanes → Call → Picture
  paint_step k p l take = paint k p (delivered l)
  paint_step k p l (other payload) = p
  paint_step k p l (key_update key seq payload) = p
  paint_step k p l (re_layout seq payload) = p

  unfoldable pub paint_run : ℕ → SendQueue → Picture → List Call → SendQueue × Picture
  paint_run k q p [] = (q, p)
  paint_run k q p (c ∷ rest) = paint_run k (perform q c).0 (paint_step k p (view q) c) rest

  -- A cell with the image of its own frame.
  abbrev pub with_image : Cell → Option SurfaceKey
  with_image none = none
  with_image (some (seq, frame)) =
      some (record { seq = seq; frame = frame; image = image_of frame })

  abbrev with_images : Screen → Picture
  with_images (d, c) = (d, with_image c)

  decoded_own : (image before : Option Bytes) → is_given image ≡ true → decoded image before ≡ image
  decoded_own none before h = cc
  decoded_own (some image) before h = refl

  apply_frame-with_image :
      (k : ℕ) (c : Cell) (f : SurfaceFrame)
      → (f.layout ≡ false → is_given (image_of f.payload) ≡ true)
      → apply_frame image_of k (with_image c) f ≡ with_image (Fields.apply_frame k c f)
  unfolding apply_frame apply_layout apply_key Fields.apply_frame Fields.apply_layout
      Fields.apply_key
  apply_frame-with_image k c f h = elim (Bool-cases f.layout) [
    | inl l ↦ rw l (layout_alike c)
    | inr r ↦ elim (Bool-cases (f.key == k)) [
      | inl hit ↦ rw (r, hit) (key_alike c r)
      | inr miss ↦ rw (r, miss) refl
    ]
  ]
    where
      layout_alike :
          (c : Cell) → apply_layout f.seq (with_image c) ≡ with_image (Fields.apply_layout f.seq c)
      layout_alike none = refl
      layout_alike (some (last, held)) = elim (Bool-cases (leb last f.seq)) [
        | inl below ↦ rw below refl
        | inr above ↦ rw above refl
      ]

      key_alike :
          (c : Cell)
          → f.layout ≡ false
          → apply_key image_of f.seq f.payload (with_image c)
            ≡ with_image (Fields.apply_key f.seq f.payload c)
      key_alike none r = rw (decoded_own (image_of f.payload) none (h r)) refl
      key_alike (some (last, held)) r = elim (Bool-cases (leb f.seq last)) [
        | inl stale ↦ rw stale refl
        | inr newer ↦ rw (newer, decoded_own (image_of f.payload) (image_of held) (h r)) refl
      ]

  apply_frames-with_image :
      (k : ℕ) (c : Cell) (fs : List SurfaceFrame)
      → AllImaged fs
      → apply_frames image_of k (with_image c) fs ≡ with_image (Fields.apply_frames k c fs)
  apply_frames-with_image k c [] a = refl
  apply_frames-with_image k c (f ∷ fs) a =
      ap (λ d. apply_frames image_of k d fs) (apply_frame-with_image k c f a.0)
      ∙ apply_frames-with_image k (Fields.apply_frame k c f) fs a.1

  pub paint-with_images :
      (k : ℕ) (s : Screen) (fs : List SurfaceFrame)
      → AllImaged fs
      → paint k (with_images s) fs ≡ with_images (show k s fs)
  paint-with_images k (d, c) fs a =
      ap (λ x. (apply_dimensions d fs, x)) (apply_frames-with_image k c fs a)
