-- ===== src/Api/SendQueue/Handles/Elements.antt =====
-- sendqueue.go: the elements that a layout sweeps away, one by one.
use cuebooth.Prelude.{
  ℕ, suc, ◌≤◌, ◌≡◌, refl, Bool, true, false, not, ◌&&◌, Option, none, some, List, [], ◌∷◌, arith,
  ◌==◌, leb, inl, inr, Bool-cases, Option-cases, ==_self,
}
use cuebooth.Api.SendQueue.{Element, SendQueue, remove, is_swept, sweep_elements}
use cuebooth.Api.SendQueue.Frames.{is_key, IsCoherent}
use cuebooth.Api.SendQueue.Handles.{
  frames, key_handle, layout_handle, Ascending, key_handle_above, layout_handle_above,
  NoKey-key_handle,
}

unfoldable pub is_old : ℕ → Element → Bool
is_old seq e = not e.value.layout && leb e.value.seq seq

abbrev Agree : (Element → Bool) → (Element → Bool) → List Element → Type 0
Agree p p' [] = Unit {0}
Agree p p' (e ∷ es) = (p e ≡ p' e) × Agree p p' es

pub sweep_elements-Agree :
    (p p' : Element → Bool) (es : List Element)
    → Agree p p' es
    → sweep_elements p es ≡ sweep_elements p' es
unfolding sweep_elements
sweep_elements-Agree p p' [] a = refl
sweep_elements-Agree p p' (e ∷ es) a = rw (a.0, sweep_elements-Agree p p' es a.1)

-- The index names this very element exactly if it is a render.
abbrev Names : (ℕ → Option ℕ) → Element → Type 0
Names keys e =
    (e.value.layout ≡ false → keys e.value.key ≡ some e.handle)
    × (e.value.layout ≡ true → (h : ℕ) → keys e.value.key ≡ some h → (h == e.handle) ≡ false)

abbrev pub AllNamed : (ℕ → Option ℕ) → List Element → Type 0
AllNamed keys [] = Unit {0}
AllNamed keys (e ∷ es) = Names keys e × AllNamed keys es

module _ (x : Element) (es : List Element) where
  lift-Names :
      (lo hi : ℕ) (zs : List Element)
      → (x.value.layout ≡ false → key_handle x.value.key es ≡ none)
      → suc x.handle ≤ lo
      → Ascending lo hi zs
      → AllNamed (λ k. key_handle k es) zs
      → AllNamed (λ k. key_handle k (x ∷ es)) zs
  lift-Names lo hi [] n b a all = tt
  lift-Names lo hi (z ∷ zs) n b a all = (
    (λ r. named r, λ l h e. other l h e),
    lift-Names (suc z.handle) hi zs n (omega arith) a.1 all.1,
  )
    where
      named : z.value.layout ≡ false → key_handle z.value.key (x ∷ es) ≡ some z.handle
      named r = elim (Bool-cases (is_key z.value.key x.value)) [
        | inl same ↦
            let e : x.value.key ≡ z.value.key = ground arith in
            let gone = rw e at (n (ground arith)) in ground (arith, gone, all.0.0 r)
        | inr differs ↦ rw differs (all.0.0 r)
      ]

      other :
          z.value.layout ≡ true
          → (h : ℕ) → key_handle z.value.key (x ∷ es) ≡ some h
          → (h == z.handle) ≡ false
      other l h e = elim (Bool-cases (is_key z.value.key x.value)) [
        | inl same ↦ ground arith
        | inr differs ↦ all.0.1 l h (rw differs at e)
      ]

pub all_named :
    (lo hi : ℕ) (es : List Element)
    → Ascending lo hi es
    → IsCoherent (frames es)
    → AllNamed (λ k. key_handle k es) es
all_named lo hi [] a c = tt
all_named lo hi (x ∷ es) a c = (
  (
    λ r. ground (arith, ==_self x.value.key),
    λ l h e. ground (arith, key_handle_above (suc x.handle) hi x.value.key es {h = h} a.1),
  ),
  lift-Names x es (suc x.handle) hi es (λ r. NoKey-key_handle x.value.key es (c.0 r).0)
      (omega arith) a.1 (all_named (suc x.handle) hi es a.1 c.2),
)

pub swept-Agree :
    (q : SendQueue) (seq : ℕ) (es : List Element)
    → AllNamed q.keys es
    → Agree (is_swept q seq) (is_old seq) es
unfolding is_swept is_old
swept-Agree q seq [] n = tt
swept-Agree q seq (e ∷ es) n = (here, swept-Agree q seq es n.1)
  where
    here : is_swept q seq e ≡ is_old seq e
    here = elim (Bool-cases e.value.layout) [
      | inl l ↦ elim (Option-cases (q.keys e.value.key)) [
        | inl unknown ↦ ground arith
        | inr (h, known) ↦ ground (arith, n.0.1 l h known)
      ]
      | inr r ↦ ground (arith, n.0.0 r)
    ]

pub key_handle-remove :
    (k lo hi h : ℕ) (es : List Element)
    → Ascending lo hi es
    → layout_handle es ≡ some h
    → key_handle k (remove h es) ≡ key_handle k es
unfolding remove
key_handle-remove k lo hi h [] a e = refl
key_handle-remove k lo hi h (x ∷ es) a e = ground (
  arith,
  key_handle-remove k (suc x.handle) hi h es a.1,
  layout_handle_above (suc x.handle) hi es {h = h} a.1,
)
