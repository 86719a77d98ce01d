-- ===== src/Api/SendQueue/Coalesce/Coherent.antt =====
-- sendqueue.go: coherence of the surface lane under its operations.
use cuebooth.Prelude.{
  ℕ, ◌<◌, ◌≡◌, true, false, List, [], ◌∷◌, ◌++◌, leb, arith, inl, inr, Bool-cases,
}
use cuebooth.Api.SendQueue.{SurfaceFrame}
use cuebooth.Api.SendQueue.Frames.{
  is_key, put_key, superseded, keep, has_newer_layout, put_layout, NoKey, LayoutsBelow, NoLayout,
  IsCoherent,
}
use cuebooth.Api.SendQueue.Coalesce.{LayoutsBelow-mono}

NoKey-put_key :
    (k : ℕ) (f : SurfaceFrame) (fs : List SurfaceFrame)
    → is_key k f ≡ false
    → NoKey k fs
    → NoKey k (put_key f fs)
unfolding put_key
NoKey-put_key k f [] h n = (h, tt)
NoKey-put_key k f (g ∷ gs) h n = ground (arith, NoKey-put_key k f gs h n.1)

pub LayoutsBelow-put_key :
    (seq : ℕ) (f : SurfaceFrame) (fs : List SurfaceFrame)
    → f.layout ≡ false
    → LayoutsBelow seq fs
    → LayoutsBelow seq (put_key f fs)
unfolding put_key
LayoutsBelow-put_key seq f [] r b = (λ l. ground arith, tt)
LayoutsBelow-put_key seq f (g ∷ gs) r b = elim (Bool-cases (is_key f.key g)) [
  | inl same ↦ elim (Bool-cases (leb f.seq g.seq)) [
    | inl older ↦ rw (same, older) b
    | inr newer ↦ rw (same, newer) ((λ l. ground arith, b.1))
  ]
  | inr other ↦ rw other ((b.0, LayoutsBelow-put_key seq f gs r b.1))
]

NoLayout-put_key :
    (f : SurfaceFrame) (fs : List SurfaceFrame)
    → f.layout ≡ false
    → NoLayout fs
    → NoLayout (put_key f fs)
unfolding put_key
NoLayout-put_key f [] r n = (r, tt)
NoLayout-put_key f (g ∷ gs) r n = ground (arith, NoLayout-put_key f gs r n.1)

pub put_key-IsCoherent :
    (f : SurfaceFrame) (fs : List SurfaceFrame)
    → f.layout ≡ false
    → IsCoherent fs
    → IsCoherent (put_key f fs)
unfolding put_key
put_key-IsCoherent f [] r h = (λ _. (tt, tt), λ _. tt, tt)
put_key-IsCoherent f (g ∷ gs) r h = elim (Bool-cases (is_key f.key g)) [
  | inl same ↦
      let e : g.key ≡ f.key = ground arith in
      let clear = h.0 (ground arith) in
      elim (Bool-cases (leb f.seq g.seq)) [
        | inl older ↦ rw (same, older) h
        | inr newer ↦
            rw (same, newer)
              ((
                λ _. (rw (← e) clear.0, LayoutsBelow-mono {m = g.seq} gs (ground arith) clear.1),
                λ l. ground arith,
                h.2,
              ))
      ]
  | inr other ↦ rw other (
      (
        λ s. (
          NoKey-put_key g.key f gs (ground arith) (h.0 s).0,
          LayoutsBelow-put_key g.seq f gs r (h.0 s).1,
        ),
        λ l. NoLayout-put_key f gs r (h.1 l),
        put_key-IsCoherent f gs r h.2,
      ))
]

-- What a layout keeps, with the layout behind it.
NoKey-keep :
    (k seq : ℕ) (f : SurfaceFrame) (fs : List SurfaceFrame)
    → f.layout ≡ true
    → NoKey k fs
    → NoKey k (keep seq fs ++ f ∷ [])
unfolding keep
NoKey-keep k seq f [] l n = (ground arith, tt)
NoKey-keep k seq f (g ∷ gs) l n = ground (arith, NoKey-keep k seq f gs l n.1)

LayoutsBelow-keep :
    (below seq : ℕ) (f : SurfaceFrame) (fs : List SurfaceFrame)
    → f.seq < below
    → LayoutsBelow below (keep seq fs ++ f ∷ [])
unfolding keep
LayoutsBelow-keep below seq f [] h = (λ _. h, tt)
LayoutsBelow-keep below seq f (g ∷ gs) h = elim (Bool-cases (superseded seq g)) [
  | inl gone ↦ rw gone (LayoutsBelow-keep below seq f gs h)
  | inr stays ↦ rw stays ((λ l. ground arith, LayoutsBelow-keep below seq f gs h))
]

keep-IsCoherent :
    (f : SurfaceFrame) (fs : List SurfaceFrame)
    → f.layout ≡ true
    → IsCoherent fs
    → IsCoherent (keep f.seq fs ++ f ∷ [])
unfolding keep
keep-IsCoherent f [] l h = (λ r. ground arith, λ _. tt, tt)
keep-IsCoherent f (g ∷ gs) l h = elim (Bool-cases (superseded f.seq g)) [
  | inl gone ↦ rw gone (keep-IsCoherent f gs l h.2)
  | inr stays ↦ rw stays (
      (
        λ s. (
          NoKey-keep g.key f.seq f gs l (h.0 s).0,
          LayoutsBelow-keep g.seq f.seq f gs (ground arith),
        ),
        λ s. ground arith,
        keep-IsCoherent f gs l h.2,
      ))
]

pub put_layout-IsCoherent :
    (f : SurfaceFrame) (fs : List SurfaceFrame)
    → f.layout ≡ true
    → IsCoherent fs
    → IsCoherent (put_layout f fs)
unfolding put_layout
put_layout-IsCoherent f fs l h = elim (Bool-cases (has_newer_layout f.seq fs)) [
  | inl newer ↦ rw newer h
  | inr not_newer ↦ rw not_newer (keep-IsCoherent f fs l h)
]

pub LayoutsBelow-put_layout :
    (below : ℕ) (f : SurfaceFrame) (fs : List SurfaceFrame)
    → f.seq < below
    → has_newer_layout f.seq fs ≡ false
    → LayoutsBelow below (put_layout f fs)
unfolding put_layout
LayoutsBelow-put_layout below f fs h e = rw e (LayoutsBelow-keep below f.seq f fs h)
