-- ===== src/Api/SendQueue/Coalesce/Layouts.antt =====
-- sendqueue.go: a layout in the surface lane, and what it drops.
use cuebooth.Prelude.{
  ℕ, suc, ◌≡◌, refl, true, false, Option, some, Bytes, List, [], ◌∷◌, ◌++◌, if◌then◌else◌, arith,
  inl, inr, Bool-cases,
}
use cuebooth.Api.SendQueue.{SurfaceFrame}
use cuebooth.Client.Fields.{Cell, apply_layout, apply_frame, apply_frames, apply_dimensions}
use cuebooth.Api.SendQueue.Frames.{
  put_key, superseded, keep, has_newer_layout, put_layout, LayoutsBelow, NoLayout, IsCoherent,
}
use cuebooth.Api.SendQueue.Coalesce.{Alike, keep-Alike, skip-Alike}

NoLayout-LayoutsBelow : (seq : ℕ) (fs : List SurfaceFrame) → NoLayout fs → LayoutsBelow seq fs
NoLayout-LayoutsBelow seq [] n = tt
NoLayout-LayoutsBelow seq (g ∷ gs) n = (λ l. ground (arith, n.0), NoLayout-LayoutsBelow seq gs n.1)

-- With no newer layout in the lane, none of its layouts is above `seq`.
pub not_newer :
    (seq : ℕ) (fs : List SurfaceFrame)
    → IsCoherent fs
    → has_newer_layout seq fs ≡ false
    → LayoutsBelow (suc seq) fs
unfolding has_newer_layout
not_newer seq [] h e = tt
not_newer seq (g ∷ gs) h e = elim (Bool-cases g.layout) [
  | inl l ↦ (λ _. ground arith, NoLayout-LayoutsBelow (suc seq) gs (h.1 l))
  | inr r ↦ (λ l. ground arith, not_newer seq gs h.2 (ground arith))
]

keep-Alike_frames :
    (k seq : ℕ) (c d : Cell) (fs : List SurfaceFrame)
    → LayoutsBelow (suc seq) fs
    → Alike seq c d
    → Alike seq (apply_frames k c (keep seq fs)) (apply_frames k d fs)
unfolding keep
keep-Alike_frames k seq c d [] b a = a
keep-Alike_frames k seq c d (g ∷ gs) b a = elim (Bool-cases (superseded seq g)) [
  | inl gone ↦ rw gone (
      keep-Alike_frames k seq c (apply_frame k d g) gs b.1
        (skip-Alike k seq c d g gone (λ l. omega (arith, b.0 l)) a))
  | inr stays ↦ rw stays (
      keep-Alike_frames k seq (apply_frame k c g) (apply_frame k d g) gs b.1
        (keep-Alike k seq c d g stays a))
]

pub apply_frames-append :
    (k : ℕ) (c : Cell) (fs : List SurfaceFrame) (f : SurfaceFrame)
    → apply_frames k c (fs ++ f ∷ []) ≡ apply_frame k (apply_frames k c fs) f
apply_frames-append k c [] f = refl
apply_frames-append k c (g ∷ gs) f = apply_frames-append k (apply_frame k c g) gs f

apply_frame_layout :
    (k : ℕ) (c : Cell) (f : SurfaceFrame)
    → f.layout ≡ true
    → apply_frame k c f ≡ apply_layout f.seq c
unfolding apply_frame
apply_frame_layout k c f l = rw l

pub apply_frames-put_layout :
    (k : ℕ) (c : Cell) (f : SurfaceFrame) (fs : List SurfaceFrame)
    → f.layout ≡ true
    → IsCoherent fs
    → has_newer_layout f.seq fs ≡ false
    → apply_frames k c (put_layout f fs) ≡ apply_frame k (apply_frames k c fs) f
unfolding put_layout
apply_frames-put_layout k c f fs l h e =
    rw
      (
        e,
        apply_frames-append k c (keep f.seq fs) f,
        apply_frame_layout k (apply_frames k c (keep f.seq fs)) f l,
        apply_frame_layout k (apply_frames k c fs) f l,
      )
      (keep-Alike_frames k f.seq c c fs (not_newer f.seq fs h e) refl)

pub apply_dimensions-append :
    (d : Option Bytes) (fs : List SurfaceFrame) (f : SurfaceFrame)
    → apply_dimensions d (fs ++ f ∷ [])
      ≡ (if f.layout then some f.payload else apply_dimensions d fs)
apply_dimensions-append d [] f = refl
apply_dimensions-append d (g ∷ gs) f =
    apply_dimensions-append (if g.layout then some g.payload else d) gs f

pub apply_dimensions-put_key :
    (d : Option Bytes) (f : SurfaceFrame) (fs : List SurfaceFrame)
    → f.layout ≡ false
    → apply_dimensions d (put_key f fs) ≡ apply_dimensions d fs
unfolding put_key
apply_dimensions-put_key d f [] r = rw r
apply_dimensions-put_key d f (g ∷ gs) r =
    ground (arith, apply_dimensions-put_key (if g.layout then some g.payload else d) f gs)

pub apply_dimensions-put_layout :
    (d : Option Bytes) (f : SurfaceFrame) (fs : List SurfaceFrame)
    → f.layout ≡ true
    → has_newer_layout f.seq fs ≡ false
    → apply_dimensions d (put_layout f fs) ≡ some f.payload
unfolding put_layout
apply_dimensions-put_layout d f fs l e = rw (e, apply_dimensions-append d (keep f.seq fs) f, l)
