-- ===== src/Api/Surface/Across.antt =====
-- surface.go: a replay with a broadcast among its frames.
use cuebooth.Prelude.{
  ℕ, zero, suc, ◌≤◌, ◌≡◌, refl, sym, ap, ◌∙◌, true, false, Option, none, some, List, [], ◌∷◌, ◌==◌,
  ==→eq, Bytes, arith, Bool-cases, inl, inr, subst,
}
use cuebooth.Client.Fields.{Cell, apply_frame, apply_frames, apply_layout, apply_key}
use cuebooth.Api.Surface.{
  SurfaceLayoutFrame, SurfaceKeyFrame, SurfaceManager, Sent, layout_sent, key_sent, replay,
  send_initial, layout_of, listed, insert_at,
}
use cuebooth.Api.Surface.Cache.{cached, UpTo, NoFrame}
use cuebooth.Api.Surface.Shown.{
  frame_of_sent, frames_of, apply_elsewhere, apply_empty, apply_at_layout, replayed, replay_skips,
}

module _ (marshal : SurfaceKeyFrame → Bytes) (marshal_layout : SurfaceLayoutFrame → Bytes) where
  -- What a pending broadcast has to do with the cache: a layout has emptied it, and a frame is in it.
  abbrev pub Waits : ℕ → SurfaceManager → Option Sent → Type 0
  Waits k m none = Unit {0}
  Waits k m (some (layout_sent l)) = (l.seq ≡ m.seq) × (m.keys ≡ [])
  Waits k m (some (key_sent f)) =
      (f.seq ≤ m.seq) × ((f.key == k) ≡ true → cached marshal k m.keys ≡ some (f.seq, marshal f))

  -- A frame that is applied is not newer than the sequence.
  pub bounded_layout :
      (k n : ℕ) (c : Cell) (l : SurfaceLayoutFrame)
      → apply_layout n c ≡ none
      → apply_layout n (apply_frame k c (frame_of_sent marshal marshal_layout (layout_sent l)))
        ≡ none
  unfolding apply_layout apply_frame frame_of_sent
  bounded_layout k n none l h = refl
  bounded_layout k n (some (last, held)) l h = ground (arith, h)

  pub bounded_key :
      (k n : ℕ) (c : Cell) (f : SurfaceKeyFrame)
      → f.seq ≤ n
      → apply_layout n c ≡ none
      → apply_layout n (apply_frame k c (frame_of_sent marshal marshal_layout (key_sent f))) ≡ none
  unfolding apply_layout apply_key apply_frame frame_of_sent
  bounded_key k n none f le h = ground (arith, le)
  bounded_key k n (some (last, held)) f le h = ground (arith, le, h)

  -- A frame over itself.
  stale_again :
      (k : ℕ) (f : SurfaceKeyFrame)
      → apply_frame k (some (f.seq, marshal f)) (frame_of_sent marshal marshal_layout (key_sent f))
        ≡ some (f.seq, marshal f)
  unfolding apply_frame apply_key frame_of_sent
  stale_again k f = ground arith

  -- A frame among others that leaves the cell.
  skipped_across :
      (k n : ℕ) (c : Cell) (f : SurfaceKeyFrame) (ss : List Sent)
      → (f.key == k) ≡ false
      → apply_frames k c (frames_of marshal marshal_layout (insert_at n (key_sent f ∷ []) ss))
        ≡ apply_frames k c (frames_of marshal marshal_layout ss)
  unfolding insert_at
  skipped_across k n c f [] e = apply_elsewhere marshal marshal_layout k c f e
  skipped_across k zero c f (x ∷ xs) e =
      ap (λ d. apply_frames k d (frames_of marshal marshal_layout (x ∷ xs)))
        (apply_elsewhere marshal marshal_layout k c f e)
  skipped_across k (suc n) c f (x ∷ xs) e =
      skipped_across k n (apply_frame k c (frame_of_sent marshal marshal_layout x)) f xs e

  -- A frame that the cell holds comes again among frames of other keys.
  held_across :
      (k n : ℕ) (f : SurfaceKeyFrame) (fs : List SurfaceKeyFrame)
      → NoFrame k fs
      → apply_frames k
          (some (f.seq, marshal f))
          (frames_of marshal marshal_layout (insert_at n (key_sent f ∷ []) (replay fs)))
        ≡ some (f.seq, marshal f)
  unfolding insert_at replay
  held_across k n f [] u = stale_again k f
  held_across k zero f (g ∷ gs) u =
      ap (λ d. apply_frames k d (frames_of marshal marshal_layout (replay (g ∷ gs))))
        (stale_again k f)
      ∙ replay_skips marshal marshal_layout k (some (f.seq, marshal f)) (g ∷ gs) u
  held_across k (suc n) f (g ∷ gs) u =
      ap
        (λ d.
          apply_frames k d
            (frames_of marshal marshal_layout (insert_at n (key_sent f ∷ []) (replay gs))))
        (apply_elsewhere marshal marshal_layout k (some (f.seq, marshal f)) g u.0)
      ∙ held_across k n f gs u.1

  -- A cell that holds its key's cached frame keeps it in the replay.
  replay_keeps :
      (k n : ℕ) (f : SurfaceKeyFrame) (fs : List SurfaceKeyFrame)
      → UpTo n fs
      → cached marshal k fs ≡ some (f.seq, marshal f)
      → apply_frames k (some (f.seq, marshal f)) (frames_of marshal marshal_layout (replay fs))
        ≡ some (f.seq, marshal f)
  unfolding replay cached
  replay_keeps k n f [] u e = cc
  replay_keeps k n f (g ∷ gs) u e = elim (Bool-cases (g.key == k)) [
    | inl here ↦
        let same = rw here at e in
        let gone = subst (λ j. NoFrame j gs) (==→eq g.key k here) u.1 in
        let again =
          subst
            (λ (x : Cell). apply_frame k x (frame_of_sent marshal marshal_layout (key_sent g)) ≡ x)
            same (stale_again k g) in
        ap (λ d. apply_frames k d (frames_of marshal marshal_layout (replay gs))) again
        ∙ replay_skips marshal marshal_layout k (some (f.seq, marshal f)) gs gone
    | inr elsewhere ↦
        ap (λ d. apply_frames k d (frames_of marshal marshal_layout (replay gs)))
          (apply_elsewhere marshal marshal_layout k (some (f.seq, marshal f)) g elsewhere)
        ∙ replay_keeps k n f gs u.2 (rw elsewhere at e)
  ]

  -- On an empty cell, the cached frame comes among the replay's.
  shown_across :
      (k n bound : ℕ) (f : SurfaceKeyFrame) (fs : List SurfaceKeyFrame)
      → (f.key == k) ≡ true
      → UpTo bound fs
      → cached marshal k fs ≡ some (f.seq, marshal f)
      → apply_frames k none
          (frames_of marshal marshal_layout (insert_at n (key_sent f ∷ []) (replay fs)))
        ≡ some (f.seq, marshal f)
  unfolding replay cached insert_at
  shown_across k n bound f [] at u e = cc
  shown_across k zero bound f (g ∷ gs) at u e =
      ap (λ d. apply_frames k d (frames_of marshal marshal_layout (replay (g ∷ gs))))
        (apply_empty marshal marshal_layout k f at)
      ∙ replay_keeps k bound f (g ∷ gs) u e
  shown_across k (suc n) bound f (g ∷ gs) at u e = elim (Bool-cases (g.key == k)) [
    | inl here ↦
        let same = rw here at e in
        let gone = subst (λ j. NoFrame j gs) (==→eq g.key k here) u.1 in
        ap
          (λ d.
            apply_frames k d
              (frames_of marshal marshal_layout (insert_at n (key_sent f ∷ []) (replay gs))))
          (apply_empty marshal marshal_layout k g here ∙ same)
        ∙ held_across k n f gs gone
    | inr elsewhere ↦
        ap
          (λ d.
            apply_frames k d
              (frames_of marshal marshal_layout (insert_at n (key_sent f ∷ []) (replay gs))))
          (apply_elsewhere marshal marshal_layout k none g elsewhere)
        ∙ shown_across k n bound f gs at u.2 (rw elsewhere at e)
  ]

  -- A layout that comes among no renders.
  layout_across :
      (k n : ℕ) (l : SurfaceLayoutFrame) (fs : List SurfaceKeyFrame)
      → fs ≡ []
      → apply_frames k none
          (frames_of marshal marshal_layout (insert_at n (layout_sent l ∷ []) (replay fs)))
        ≡ cached marshal k fs
  unfolding replay cached insert_at apply_layout
  layout_across k n l fs e = rw e (apply_at_layout marshal marshal_layout k none l)

  nothing_across : (n : ℕ) (ss : List Sent) → insert_at n [] ss ≡ ss
  unfolding insert_at
  nothing_across n [] = refl
  nothing_across zero (x ∷ xs) = refl
  nothing_across (suc n) (x ∷ xs) = ap (λ r. x ∷ r) (nothing_across n xs)

  -- A pending broadcast over what the cache shows changes nothing.
  pub absorbed :
      (k : ℕ) (m : SurfaceManager) (o : Option Sent)
      → Waits k m o
      → apply_frames k (cached marshal k m.keys) (frames_of marshal marshal_layout (listed o))
        ≡ cached marshal k m.keys
  absorbed k m none w = refl
  absorbed k m (some (layout_sent l)) w = go m.keys w.1
    where
      go :
          (fs : List SurfaceKeyFrame)
          → fs ≡ []
          → apply_frame k
              (cached marshal k fs)
              (frame_of_sent marshal marshal_layout (layout_sent l))
            ≡ cached marshal k fs
      go fs e = unfold cached apply_layout in rw e (apply_at_layout marshal marshal_layout k none l)
  absorbed k m (some (key_sent f)) w = elim (Bool-cases (f.key == k)) [
    | inl here ↦
        subst
          (λ (x : Cell). apply_frame k x (frame_of_sent marshal marshal_layout (key_sent f)) ≡ x)
          (sym (w.1 here)) (stale_again k f)
    | inr elsewhere ↦ apply_elsewhere marshal marshal_layout k (cached marshal k m.keys) f elsewhere
  ]

  pub replayed_across :
      (k n : ℕ) (m : SurfaceManager) (c : Cell) (o : Option Sent)
      → UpTo m.seq m.keys
      → apply_layout m.seq c ≡ none
      → Waits k m o
      → apply_frames k c
          (frames_of marshal marshal_layout (insert_at n (listed o) (send_initial m)))
        ≡ cached marshal k m.keys
  replayed_across k n m c none u b w =
      ap (λ ss. apply_frames k c (frames_of marshal marshal_layout ss))
        (nothing_across n (send_initial m))
      ∙ replayed marshal marshal_layout k m c u b
  replayed_across k zero m c (some (layout_sent l)) u b w =
      unfold send_initial insert_at in
      replayed marshal marshal_layout k m _ u (bounded_layout k m.seq c l b)
  replayed_across k zero m c (some (key_sent f)) u b w =
      unfold send_initial insert_at in
      replayed marshal marshal_layout k m _ u (bounded_key k m.seq c f w.0 b)
  replayed_across k (suc n) m c (some (layout_sent l)) u b w =
      unfold send_initial insert_at in
      (ap
          (λ d.
            apply_frames k d
              (frames_of marshal marshal_layout (insert_at n (layout_sent l ∷ []) (replay m.keys))))
          (apply_at_layout marshal marshal_layout k c (layout_of m) ∙ b)
        ∙ layout_across k n l m.keys w.1)
  replayed_across k (suc n) m c (some (key_sent f)) u b w =
      unfold send_initial insert_at in
      elim (Bool-cases (f.key == k)) [
        | inl here ↦
            ap
              (λ d.
                apply_frames k d (
                  frames_of marshal marshal_layout (insert_at n (key_sent f ∷ []) (replay m.keys))))
              (apply_at_layout marshal marshal_layout k c (layout_of m) ∙ b)
            ∙ shown_across k n m.seq f m.keys here u (w.1 here)
            ∙ sym (w.1 here)
        | inr elsewhere ↦
            skipped_across k (suc n) c f (send_initial m) elsewhere
            ∙ replayed marshal marshal_layout k m c u b
      ]
