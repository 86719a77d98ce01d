-- ===== src/Api/Surface/Shown.antt =====
-- The cache of surface.go, the queue of sendqueue.go and the client's surface_state.dart, together.
use cuebooth.Prelude.{
  ℕ, ◌+◌, ◌≤◌, ◌≡◌, refl, ap, ◌∙◌, true, false, none, some, List, [], ◌∷◌, ◌++◌, ◌==◌, ==→eq, leb,
  le→leb, if◌then◌else◌, Bytes, arith, Bool-cases, inl, inr, subst,
}
use cuebooth.Client.Fields.{Cell, apply_frame, apply_frames, apply_layout, apply_key}
use cuebooth.Api.SendQueue.{SurfaceFrame, key_frame, layout_frame}
use cuebooth.Api.Surface.{
  SurfaceLayoutFrame, SurfaceKeyFrame, SurfaceManager, Sent, layout_sent, key_sent, replay,
  send_initial, layout_of,
}
use cuebooth.Api.Surface.Cache.{cached, UpTo, NoFrame}

module _ (marshal : SurfaceKeyFrame → Bytes) (marshal_layout : SurfaceLayoutFrame → Bytes) where
  -- What enqueueSurfaceKey and enqueueSurfaceLayout are called with.
  unfoldable pub frame_of_sent : Sent → SurfaceFrame
  frame_of_sent (layout_sent l) = layout_frame l.seq (marshal_layout l)
  frame_of_sent (key_sent f) = key_frame f.key f.seq (marshal f)

  abbrev pub frames_of : List Sent → List SurfaceFrame
  frames_of [] = []
  frames_of (s ∷ ss) = frame_of_sent s ∷ frames_of ss

  pub frames_of-append : (ss ts : List Sent) → frames_of (ss ++ ts) ≡ frames_of ss ++ frames_of ts
  frames_of-append [] ts = refl
  frames_of-append (s ∷ ss) ts = ap (λ fs. frame_of_sent s ∷ fs) (frames_of-append ss ts)

  pub apply_append :
      (k : ℕ) (c : Cell) (fs gs : List SurfaceFrame)
      → apply_frames k c (fs ++ gs) ≡ apply_frames k (apply_frames k c fs) gs
  apply_append k c [] gs = refl
  apply_append k c (f ∷ fs) gs = apply_append k (apply_frame k c f) fs gs

  -- A layout at or above every cached frame empties a cell that shows the cache.
  pub layout_empties :
      (k n : ℕ) (fs : List SurfaceKeyFrame)
      → UpTo n fs
      → apply_layout n (cached marshal k fs) ≡ none
  unfolding cached apply_layout
  layout_empties k n [] u = refl
  layout_empties k n (f ∷ fs) u = elim (Bool-cases (f.key == k)) [
    | inl here ↦ rw (here, le→leb f.seq n u.0) refl
    | inr elsewhere ↦ rw elsewhere (layout_empties k n fs u.2)
  ]

  -- A newer frame takes its key's cell.
  pub newer_takes :
      (k n : ℕ) (f : SurfaceKeyFrame) (fs : List SurfaceKeyFrame)
      → UpTo n fs
      → n + 1 ≤ f.seq
      → apply_frame k (cached marshal k fs) (frame_of_sent (key_sent f))
        ≡ (if f.key == k then some (f.seq, marshal f) else cached marshal k fs)
  unfolding cached apply_frame apply_key frame_of_sent
  newer_takes k n f [] u new = refl
  newer_takes k n f (g ∷ gs) u new = elim (Bool-cases (f.key == k)) [
    | inl here ↦ elim (Bool-cases (g.key == k)) [
      | inl held ↦
          let newer : leb f.seq g.seq ≡ false = ground (arith, u.0, new) in
          rw (here, held, newer) refl
      | inr elsewhere ↦
          let rest = newer_takes k n f gs u.2 new in rw (here, elsewhere) (rw here at rest)
    ]
    | inr elsewhere ↦ rw elsewhere refl
  ]

  pub apply_elsewhere :
      (k : ℕ) (c : Cell) (f : SurfaceKeyFrame)
      → (f.key == k) ≡ false
      → apply_frame k c (frame_of_sent (key_sent f)) ≡ c
  unfolding frame_of_sent apply_frame
  apply_elsewhere k c f e = rw e refl

  pub apply_empty :
      (k : ℕ) (f : SurfaceKeyFrame)
      → (f.key == k) ≡ true
      → apply_frame k none (frame_of_sent (key_sent f)) ≡ some (f.seq, marshal f)
  unfolding frame_of_sent apply_frame apply_key
  apply_empty k f e = rw e refl

  pub apply_at_layout :
      (k : ℕ) (c : Cell) (l : SurfaceLayoutFrame)
      → apply_frame k c (frame_of_sent (layout_sent l)) ≡ apply_layout l.seq c
  unfolding frame_of_sent apply_frame
  apply_at_layout k c l = refl

  pub replay_skips :
      (k : ℕ) (c : Cell) (fs : List SurfaceKeyFrame)
      → NoFrame k fs
      → apply_frames k c (frames_of (replay fs)) ≡ c
  unfolding replay
  replay_skips k c [] n = refl
  replay_skips k c (f ∷ fs) n =
      ap (λ d. apply_frames k d (frames_of (replay fs))) (apply_elsewhere k c f n.0)
      ∙ replay_skips k c fs n.1

  -- Replaying the cache on an empty cell shows the cache.
  replay_shows :
      (k n : ℕ) (fs : List SurfaceKeyFrame)
      → UpTo n fs
      → apply_frames k none (frames_of (replay fs)) ≡ cached marshal k fs
  unfolding replay cached
  replay_shows k n [] u = refl
  replay_shows k n (f ∷ fs) u = elim (Bool-cases (f.key == k)) [
    | inl here ↦
        let gone = subst (λ j. NoFrame j fs) (==→eq f.key k here) u.1 in
        rw here (
          ap (λ d. apply_frames k d (frames_of (replay fs))) (apply_empty k f here)
          ∙ replay_skips k (some (f.seq, marshal f)) fs gone)
    | inr elsewhere ↦ rw elsewhere (
        ap (λ d. apply_frames k d (frames_of (replay fs))) (apply_elsewhere k none f elsewhere)
        ∙ replay_shows k n fs u.2)
  ]

  -- A cell that holds nothing newer than a layout shows the cache after a replay behind it.
  pub replayed :
      (k : ℕ) (m : SurfaceManager) (c : Cell)
      → UpTo m.seq m.keys
      → apply_layout m.seq c ≡ none
      → apply_frames k c (frames_of (send_initial m)) ≡ cached marshal k m.keys
  unfolding send_initial
  replayed k m c u e =
      ap (λ d. apply_frames k d (frames_of (replay m.keys))) (apply_at_layout k c (layout_of m) ∙ e)
      ∙ replay_shows k m.seq m.keys u
