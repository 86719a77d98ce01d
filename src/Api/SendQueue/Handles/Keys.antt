-- ===== src/Api/SendQueue/Handles/Keys.antt =====
-- sendqueue.go: pushSurfaceKey, writing through the indexed element.
use cuebooth.Prelude.{
  ℕ, suc, ◌≡◌, refl, false, none, some, List, [], ◌∷◌, ◌++◌, if◌then◌else◌, arith,
}
use cuebooth.Api.SendQueue.{SurfaceFrame, Element, value_of, set_value, at_least}
use cuebooth.Api.SendQueue.Frames.{put_key}
use cuebooth.Api.SendQueue.Handles.{frames, key_handle, layout_handle, Ascending, key_handle_above}

pub put_key_fresh :
    (f : SurfaceFrame) (es : List Element)
    → key_handle f.key es ≡ none
    → put_key f (frames es) ≡ frames es ++ f ∷ []
unfolding put_key
put_key_fresh f [] e = refl
put_key_fresh f (x ∷ es) e = ground (arith, put_key_fresh f es)

module _ (f : SurfaceFrame) (h : ℕ) (r : f.layout ≡ false) where
  pub put_key_held :
      (lo hi : ℕ) (es : List Element)
      → Ascending lo hi es
      → key_handle f.key es ≡ some h
      → put_key f (frames es)
        ≡ (if at_least f.seq (value_of h es) then frames es else frames (set_value h f es))
  unfolding put_key value_of set_value
  put_key_held lo hi [] a e = cc
  put_key_held lo hi (x ∷ es) a e = ground (
    arith,
    put_key_held (suc x.handle) hi es a.1,
    key_handle_above (suc x.handle) hi f.key es {h = h} a.1,
  )

  pub key_handle-set_value :
      (k lo hi : ℕ) (es : List Element)
      → Ascending lo hi es
      → key_handle f.key es ≡ some h
      → key_handle k (set_value h f es) ≡ key_handle k es
  unfolding set_value
  key_handle-set_value k lo hi [] a e = refl
  key_handle-set_value k lo hi (x ∷ es) a e = ground (
    arith,
    key_handle-set_value k (suc x.handle) hi es a.1,
    key_handle_above (suc x.handle) hi f.key es {h = h} a.1,
  )

  pub layout_handle-set_value :
      (lo hi : ℕ) (es : List Element)
      → Ascending lo hi es
      → key_handle f.key es ≡ some h
      → layout_handle (set_value h f es) ≡ layout_handle es
  unfolding set_value
  layout_handle-set_value lo hi [] a e = refl
  layout_handle-set_value lo hi (x ∷ es) a e = ground (
    arith,
    layout_handle-set_value (suc x.handle) hi es a.1,
    key_handle_above (suc x.handle) hi f.key es {h = h} a.1,
  )

  pub Ascending-set_value :
      (lo hi : ℕ) (es : List Element) → Ascending lo hi es → Ascending lo hi (set_value h f es)
  unfolding set_value
  Ascending-set_value lo hi [] a = a
  Ascending-set_value lo hi (x ∷ es) a =
      ground (arith, Ascending-set_value (suc x.handle) hi es a.1)
