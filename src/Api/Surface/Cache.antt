-- ===== src/Api/Surface/Cache.antt =====
-- surface.go: the cached frames and the sequence.
use cuebooth.Prelude.{
  ℕ, ◌+◌, ◌≤◌, ◌≡◌, refl, false, none, some, List, [], ◌∷◌, ◌==◌, ==→eq, if◌then◌else◌, Bytes,
  arith, Bool-cases, inl, inr, subst,
}
use cuebooth.Client.Fields.{Cell}
use cuebooth.Companion.Satellite.{SatelliteKey}
use cuebooth.Api.Surface.{SurfaceKeyFrame, SurfaceManager, set_frame, frame_of}

-- The newest frame of a key, as a client holds it.
unfoldable pub cached : (SurfaceKeyFrame → Bytes) → ℕ → List SurfaceKeyFrame → Cell
cached marshal k [] = none
cached marshal k (f ∷ fs) = if f.key == k then some (f.seq, marshal f) else cached marshal k fs

abbrev pub NoFrame : ℕ → List SurfaceKeyFrame → Type 0
NoFrame k [] = Unit {0}
NoFrame k (f ∷ fs) = ((f.key == k) ≡ false) × NoFrame k fs

-- One frame per key, with sequences up to `n`.
abbrev pub UpTo : ℕ → List SurfaceKeyFrame → Type 0
UpTo n [] = Unit {0}
UpTo n (f ∷ fs) = (f.seq ≤ n) × NoFrame f.key fs × UpTo n fs

pub UpTo-weaken : (n m : ℕ) (fs : List SurfaceKeyFrame) → n ≤ m → UpTo n fs → UpTo m fs
UpTo-weaken n m [] le u = tt
UpTo-weaken n m (f ∷ fs) le u = (omega arith, u.1, UpTo-weaken n m fs le u.2)

pub cached-set_frame :
    (marshal : SurfaceKeyFrame → Bytes) (k : ℕ) (f : SurfaceKeyFrame) (fs : List SurfaceKeyFrame)
    → cached marshal k (set_frame f fs)
      ≡ (if f.key == k then some (f.seq, marshal f) else cached marshal k fs)
unfolding cached set_frame
cached-set_frame marshal k f [] = refl
cached-set_frame marshal k f (g ∷ gs) = elim (Bool-cases (g.key == f.key)) [
  | inl same ↦ elim (Bool-cases (f.key == k)) [
    | inl here ↦ rw (same, here) refl
    | inr other ↦
        let other_g : (g.key == k) ≡ false = ground (arith, same, other) in
        rw (same, other, other_g) refl
  ]
  | inr differs ↦ elim (Bool-cases (g.key == k)) [
    | inl here ↦
        let other_f : (f.key == k) ≡ false = ground (arith, differs, here) in
        rw (differs, here, other_f) refl
    | inr other ↦ rw (differs, other) (cached-set_frame marshal k f gs)
  ]
]

NoFrame-set_frame :
    (k : ℕ) (f : SurfaceKeyFrame) (fs : List SurfaceKeyFrame)
    → (f.key == k) ≡ false
    → NoFrame k fs
    → NoFrame k (set_frame f fs)
unfolding set_frame
NoFrame-set_frame k f [] other n = (other, tt)
NoFrame-set_frame k f (g ∷ gs) other n = elim (Bool-cases (g.key == f.key)) [
  | inl same ↦ rw same ((other, n.1))
  | inr differs ↦ rw differs ((n.0, NoFrame-set_frame k f gs other n.1))
]

UpTo-set_frame :
    (n : ℕ) (f : SurfaceKeyFrame) (fs : List SurfaceKeyFrame)
    → f.seq ≤ n
    → UpTo n fs
    → UpTo n (set_frame f fs)
unfolding set_frame
UpTo-set_frame n f [] le u = (le, tt, tt)
UpTo-set_frame n f (g ∷ gs) le u = elim (Bool-cases (g.key == f.key)) [
  | inl same ↦
      let gone = subst (λ k. NoFrame k gs) (==→eq g.key f.key same) u.1 in rw same ((le, gone, u.2))
  | inr differs ↦ rw differs (
      (
        u.0,
        NoFrame-set_frame g.key f gs (ground (arith, differs)) u.1,
        UpTo-set_frame n f gs le u.2,
      ))
]

pub UpTo-stored :
    (m : SurfaceManager) (key : ℕ) (k : SatelliteKey)
    → UpTo m.seq m.keys
    → UpTo (m.seq + 1) (set_frame (frame_of m (m.seq + 1) key k) m.keys)
unfolding frame_of
UpTo-stored m key k u =
    UpTo-set_frame (m.seq + 1) (frame_of m (m.seq + 1) key k) m.keys (omega arith)
      (UpTo-weaken m.seq (m.seq + 1) m.keys (omega arith) u)

pub seq-frame_of :
    (m : SurfaceManager) (seq key : ℕ) (k : SatelliteKey) → (frame_of m seq key k).seq ≡ seq
unfolding frame_of
seq-frame_of m seq key k = refl
