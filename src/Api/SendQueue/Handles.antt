-- ===== src/Api/SendQueue/Handles.antt =====
-- sendqueue.go: the index and the handles, against the surface list.
pub mod Keys
pub mod Sweep
pub mod Elements
pub mod Pushes
pub mod Refinement
use cuebooth.Prelude.{
  ℕ, suc, ◌+◌, ◌≤◌, ◌<◌, ◌≡◌, refl, true, false, Option, none, some, List, [], ◌∷◌, ◌++◌,
  if◌then◌else◌, arith, ◌==◌, ap,
}
use cuebooth.Api.SendQueue.{SurfaceFrame, Element, SendQueue, value_of}
use cuebooth.Api.SendQueue.Frames.{is_key, NoKey, NoLayout, IsCoherent}

abbrev pub frames : List Element → List SurfaceFrame
frames [] = []
frames (e ∷ es) = e.value ∷ frames es

-- The element that holds a key's render, and the one that holds a layout, found in the list.
abbrev pub key_handle : ℕ → List Element → Option ℕ
key_handle k [] = none
key_handle k (e ∷ es) = if is_key k e.value then some e.handle else key_handle k es

abbrev pub layout_handle : List Element → Option ℕ
layout_handle [] = none
layout_handle (e ∷ es) = if e.value.layout then some e.handle else layout_handle es

-- Handles grow along the list and stay below the next fresh one.
abbrev pub Ascending : ℕ → ℕ → List Element → Type 0
Ascending lo hi [] = lo ≤ hi
Ascending lo hi (e ∷ es) = (lo ≤ e.handle) × Ascending (suc e.handle) hi es

pub record IsValid (q : SendQueue) : Type 0 where
  pub keyed : (k : ℕ) → q.keys k ≡ key_handle k q.surface
  pub laid : q.layout ≡ layout_handle q.surface
  pub ordered : Ascending 0 q.next_id q.surface
  pub coherent : IsCoherent (frames q.surface)

pub frames-append :
    (es : List Element) (e : Element) → frames (es ++ e ∷ []) ≡ frames es ++ e.value ∷ []
frames-append [] e = refl
frames-append (x ∷ es) e = ap (λ fs. x.value ∷ fs) (frames-append es e)

pub key_handle_above :
    (lo hi k : ℕ) (es : List Element) {h : ℕ}
    → Ascending lo hi es
    → key_handle k es ≡ some h
    → lo ≤ h
key_handle_above lo hi k [] {h} a e = cc
key_handle_above lo hi k (x ∷ es) {h} a e =
    ground (arith, key_handle_above (suc x.handle) hi k es {h = h} a.1)

pub layout_handle_above :
    (lo hi : ℕ) (es : List Element) {h : ℕ}
    → Ascending lo hi es
    → layout_handle es ≡ some h
    → lo ≤ h
layout_handle_above lo hi [] {h} a e = cc
layout_handle_above lo hi (x ∷ es) {h} a e =
    ground (arith, layout_handle_above (suc x.handle) hi es {h = h} a.1)

pub NoKey-key_handle : (k : ℕ) (es : List Element) → NoKey k (frames es) → key_handle k es ≡ none
NoKey-key_handle k [] n = refl
NoKey-key_handle k (x ∷ es) n = ground (arith, NoKey-key_handle k es n.1)

pub NoLayout-layout_handle : (es : List Element) → NoLayout (frames es) → layout_handle es ≡ none
NoLayout-layout_handle [] n = refl
NoLayout-layout_handle (x ∷ es) n = ground (arith, NoLayout-layout_handle es n.1)

pub Ascending-append :
    (lo hi : ℕ) (es : List Element) (f : SurfaceFrame)
    → Ascending lo hi es
    → Ascending lo (suc hi) (es ++ record { handle = hi; value = f } ∷ [])
Ascending-append lo hi [] f a = omega arith
Ascending-append lo hi (x ∷ es) f a = (a.0, Ascending-append (suc x.handle) hi es f a.1)

-- The first of two handles.
abbrev pub or_else : Option ℕ → Option ℕ → Option ℕ
or_else none b = b
or_else (some a) b = some a

pub key_handle-append :
    (k : ℕ) (es : List Element) (e : Element)
    → key_handle k (es ++ e ∷ [])
      ≡ or_else (key_handle k es) (if is_key k e.value then some e.handle else none)
key_handle-append k [] e = refl
key_handle-append k (x ∷ es) e = ground (arith, key_handle-append k es e)

pub layout_handle-append :
    (es : List Element) (e : Element)
    → layout_handle (es ++ e ∷ [])
      ≡ or_else (layout_handle es) (if e.value.layout then some e.handle else none)
layout_handle-append [] e = refl
layout_handle-append (x ∷ es) e = ground (arith, layout_handle-append es e)

pub Ascending-weaken :
    (lo lo' hi : ℕ) (es : List Element) → lo' ≤ lo → Ascending lo hi es → Ascending lo' hi es
Ascending-weaken lo lo' hi [] h a = omega arith
Ascending-weaken lo lo' hi (x ∷ es) h a = (omega arith, a.1)
