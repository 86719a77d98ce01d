-- ===== src/Api/SendQueue/Coalesce.antt =====
-- sendqueue.go: coalescing in the surface lane, and the client that reads the lane.
pub mod Layouts
pub mod Coherent
use cuebooth.Prelude.{
  ℕ, ◌≤◌, ◌<◌, ◌≡◌, refl, sym, subst, ==→eq, leb→le, Bytes, ◌∙◌, Bool, true, false, not, ◌&&◌,
  Option, none, some, List, [], ◌∷◌, ◌++◌, ltb, leb, ◌==◌, if◌then◌else◌, arith, ap, inl, inr,
  Bool-cases,
}
use cuebooth.Api.SendQueue.{SurfaceFrame}
use cuebooth.Client.Fields.{Cell, apply_layout, apply_key, apply_frame, apply_frames}
use cuebooth.Api.SendQueue.Frames.{
  is_key, put_key, superseded, keep, has_newer_layout, put_layout, NoKey, LayoutsBelow, NoLayout,
  IsCoherent,
}

-- A cell at `seq` or above stays while no render of its key and no layout from `seq` on comes.
apply_frames_hold :
    (k last seq : ℕ) (image : List ℕ) (fs : List SurfaceFrame)
    → seq ≤ last
    → NoKey k fs
    → LayoutsBelow seq fs
    → apply_frames k (some (last, image)) fs ≡ some (last, image)
apply_frames_hold k last seq image [] h n b = refl
apply_frames_hold k last seq image (g ∷ gs) h n b =
    ap (λ c. apply_frames k c gs) step ∙ apply_frames_hold k last seq image gs h n.1 b.1
  where
    step : apply_frame k (some (last, image)) g ≡ some (last, image)
    step = unfold apply_frame in ground (arith, b.0)

-- What a cell holds once a render of its key has been applied.
newest : Cell → SurfaceFrame → ℕ × Bytes
newest none g = (g.seq, g.payload)
newest (some (last, image)) g = if leb g.seq last then (last, image) else (g.seq, g.payload)

le-newest : (c : Cell) (g : SurfaceFrame) → g.seq ≤ (newest c g).0
unfolding newest
le-newest none g = omega arith
le-newest (some (last, image)) g = ground arith

pub LayoutsBelow-mono :
    {m n : ℕ} (fs : List SurfaceFrame) → m ≤ n → LayoutsBelow m fs → LayoutsBelow n fs
LayoutsBelow-mono [] h b = tt
LayoutsBelow-mono (g ∷ gs) h b = (λ l. omega (arith, b.0 l), LayoutsBelow-mono gs h b.1)

-- After a render of its key, with nothing behind it that touches the cell, a cell holds the newest.
apply_frames-newest :
    (k : ℕ) (c : Cell) (g : SurfaceFrame) (gs : List SurfaceFrame)
    → g.layout ≡ false
    → g.key ≡ k
    → NoKey k gs
    → LayoutsBelow g.seq gs
    → apply_frames k (apply_frame k c g) gs ≡ some (newest c g)
apply_frames-newest k c g gs r e n b =
    ap (λ d. apply_frames k d gs) (step c)
    ∙ apply_frames_hold k (newest c g).0 g.seq (newest c g).1 gs (le-newest c g) n b
  where
    step : (c : Cell) → apply_frame k c g ≡ some (newest c g)
    step none = unfold apply_frame newest in ground arith
    step (some (last, image)) = unfold apply_frame newest in ground arith

apply_frame_other :
    (k : ℕ) (c : Cell) (g : SurfaceFrame)
    → g.layout ≡ false
    → (g.key == k) ≡ false
    → apply_frame k c g ≡ c
unfolding apply_frame
apply_frame_other k c g r e = ground arith

-- The older render is dropped: the client would have ignored it.
drop_older :
    (k : ℕ) (c : Cell) (f g : SurfaceFrame) (gs : List SurfaceFrame)
    → f.layout ≡ false
    → g.layout ≡ false
    → g.key ≡ f.key
    → f.seq ≤ g.seq
    → NoKey g.key gs
    → LayoutsBelow g.seq gs
    → apply_frames k c (g ∷ gs) ≡ apply_frame k (apply_frames k c (g ∷ gs)) f
drop_older k c f g gs r s e h n b = elim (Bool-cases (f.key == k)) [
  | inl hit ↦
      let at_g : g.key ≡ k = omega (arith, ==→eq f.key k hit) in
      rw (apply_frames-newest k c g gs s at_g (subst (λ j. NoKey j gs) at_g n) b)
        (unfold apply_frame in ground (arith, le-newest c g))
  | inr miss ↦ sym (apply_frame_other k _ f r miss)
]

-- The newer render takes the older one's place.
take_place :
    (k : ℕ) (c : Cell) (f g : SurfaceFrame) (gs : List SurfaceFrame)
    → f.layout ≡ false
    → g.layout ≡ false
    → g.key ≡ f.key
    → g.seq < f.seq
    → NoKey g.key gs
    → LayoutsBelow g.seq gs
    → apply_frames k c (f ∷ gs) ≡ apply_frame k (apply_frames k c (g ∷ gs)) f
take_place k c f g gs r s e h n b = elim (Bool-cases (f.key == k)) [
  | inl hit ↦
      let at_f : f.key ≡ k = ==→eq f.key k hit in
      let at_g : g.key ≡ k = e ∙ at_f in
      let free = subst (λ j. NoKey j gs) at_g n in
      rw
        (
          apply_frames-newest k c g gs s at_g free b,
          apply_frames-newest k c f gs r at_f free
              (LayoutsBelow-mono {m = g.seq} gs (omega arith) b),
        )
        (replaced c hit)
  | inr miss ↦
      rw (apply_frame_other k c f r miss, apply_frame_other k c g s (rw e miss))
        (sym (apply_frame_other k _ f r miss))
]
  where
    replaced :
        (c : Cell) → (f.key == k) ≡ true → some (newest c f) ≡ apply_frame k (some (newest c g)) f
    replaced none hit = unfold apply_frame newest in ground arith
    replaced (some (last, image)) hit = unfold apply_frame newest in ground arith

pub apply_frames-put_key :
    (k : ℕ) (c : Cell) (f : SurfaceFrame) (fs : List SurfaceFrame)
    → f.layout ≡ false
    → IsCoherent fs
    → apply_frames k c (put_key f fs) ≡ apply_frame k (apply_frames k c fs) f
unfolding put_key
apply_frames-put_key k c f [] r h = refl
apply_frames-put_key k c f (g ∷ gs) r h = elim (Bool-cases (is_key f.key g)) [
  | inl same ↦
      let s : g.layout ≡ false = ground arith in
      let e : g.key ≡ f.key = ground arith in
      let clear = h.0 s in
      elim (Bool-cases (leb f.seq g.seq)) [
        | inl older ↦
            rw (same, older) (drop_older k c f g gs r s e (leb→le _ _ older) clear.0 clear.1)
        | inr newer ↦ rw (same, newer) (take_place k c f g gs r s e (ground arith) clear.0 clear.1)
      ]
  | inr other ↦ rw other (apply_frames-put_key k (apply_frame k c g) f gs r h.2)
]

-- Two cells that a layout at `seq` leaves equal.
abbrev pub Alike : ℕ → Cell → Cell → Type 0
Alike seq c d = apply_layout seq c ≡ apply_layout seq d

-- A frame that the layout keeps treats alike cells alike.
pub keep-Alike :
    (k seq : ℕ) (c d : Cell) (g : SurfaceFrame)
    → superseded seq g ≡ false
    → Alike seq c d
    → Alike seq (apply_frame k c g) (apply_frame k d g)
unfolding apply_frame
keep-Alike k seq none none g h a = refl
keep-Alike k seq _ _ g h a = ground arith

-- A frame that the layout supersedes leaves no trace behind it.
pub skip-Alike :
    (k seq : ℕ) (c d : Cell) (g : SurfaceFrame)
    → superseded seq g ≡ true
    → (g.layout ≡ true → g.seq ≤ seq)
    → Alike seq c d
    → Alike seq c (apply_frame k d g)
unfolding apply_frame
skip-Alike k seq c none g h b a = ground (arith, b)
skip-Alike k seq c (some (last, image)) g h b a = ground (arith, b)
