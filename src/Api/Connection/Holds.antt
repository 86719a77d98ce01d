-- ===== src/Api/Connection/Holds.antt =====
-- client.go: the keys that a client holds, and the close that came first.
use cuebooth.Prelude.{
  ℕ, ◌≡◌, refl, sym, subst, Bool, true, false, not, ◌||◌, Option, some, List, [], ◌∷◌, ltb,
  if◌then◌else◌, Bytes, ℤ, pos, negsuc, Bool-cases, Option-cases, inl, inr,
}
use cuebooth.Api.Dispatch.{CmdFrame, Reply}
use cuebooth.Api.SendQueue.{SendQueue, push_other}
use cuebooth.Api.Surface.{
  SurfaceManager, SurfaceLayoutFrame, SurfaceKeyFrame, in_bounds, press, key_count,
}
use cuebooth.Api.Connection.{
  ClientConn, Frame, close, close_at, remove_key, track_surface_hold, queued, enqueue, after_press,
  press_at, press_on, handle_surface_press, handle, surface_press,
}

held_true : (sent : Bool) (a b : List ℕ) → (if not sent || true then a else b) ≡ a
held_true true a b = refl
held_true false a b = refl

held_false :
    (sent : Bool) (a b : List ℕ) → (if not sent || false then a else b) ≡ (if sent then b else a)
held_false true a b = refl
held_false false a b = refl

module _ {Raw : Type 0} (marshal : Frame → Bytes) (marshal_key : SurfaceKeyFrame → Bytes)
    (marshal_layout : SurfaceLayoutFrame → Bytes) (dispatch : CmdFrame Raw → Reply)
    (delivered : ℕ → Bool → Bool) (surface : Option SurfaceManager) where
  held-queued :
      (c : ClientConn) (q : SendQueue) (room : Bool)
      → (queued c (q, room)).0.held_surface_keys ≡ c.held_surface_keys
  unfolding queued close close_at
  held-queued c q true = refl
  held-queued c q false = elim (Option-cases c.closing) [
    | inl still ↦ rw still refl
    | inr (first, closed) ↦ rw closed refl
  ]

  held-enqueue :
      (c : ClientConn) (f : Frame)
      → (enqueue marshal marshal_key marshal_layout dispatch delivered surface c
          f).0.held_surface_keys
        ≡ c.held_surface_keys
  unfolding enqueue
  held-enqueue c f =
      held-queued c (push_other c.send (marshal f)).0 (push_other c.send (marshal f)).1

  -- The hold that a press in the grid leaves, and the one that a release leaves.
  after_press_held :
      (c : ClientConn) (key : ℕ) (down sent : Bool) (calls : List (ℕ × Bool))
      → (after_press marshal marshal_key marshal_layout dispatch delivered surface c key down
          (sent, calls)).0.held_surface_keys
        ≡ (if not sent || down then c.held_surface_keys else remove_key key c.held_surface_keys)
  unfolding after_press track_surface_hold
  after_press_held c key down false calls = held-enqueue c _
  after_press_held c key true true calls = refl
  after_press_held c key false true calls = refl

  pub press-delivered :
      (m : SurfaceManager) (n : ℤ) (key : ℕ) (down : Bool)
      → in_bounds m n ≡ some key
      → press m delivered key down ≡ (delivered key down, (key, down) ∷ [])
  unfolding in_bounds press
  press-delivered m (negsuc n) key down h = cc
  press-delivered m (pos n) key down h = elim (Bool-cases (ltb n (key_count m))) [
    | inl inside ↦
        let same : some n ≡ some key = rw inside at h in
        let e : n ≡ key = cc in rw (← e, inside) refl
    | inr outside ↦ cc (rw outside at h)
  ]

  tracked_on :
      (c : ClientConn) (m : SurfaceManager) (n : ℤ) (key : ℕ)
      → in_bounds m n ≡ some key
      → ((press_on marshal marshal_key marshal_layout dispatch delivered surface c
            (some m)
            (some (some n, some true))).0.held_surface_keys
          ≡ key ∷ remove_key key c.held_surface_keys)
        × ((press_on marshal marshal_key marshal_layout dispatch delivered surface c
              (some m)
              (some (some n, some false))).0.held_surface_keys
            ≡ (if delivered key false
                then remove_key key c.held_surface_keys
                else c.held_surface_keys))
  unfolding press_on press_at track_surface_hold
  tracked_on c m n key h =
      rw
        (
          h,
          press-delivered m n key true h,
          press-delivered m n key false h,
          after_press_held
              (record c { held_surface_keys = key ∷ remove_key key c.held_surface_keys }) key true
              (delivered key true) ((key, true) ∷ []),
          after_press_held c key false (delivered key false) ((key, false) ∷ []),
        )
        ((held_true (delivered key true) _ _, held_false (delivered key false) _ _))

  -- A press of a key in the grid holds the key, whether or not Companion took it. A release of a key
  -- in the grid forgets it exactly if Companion took the release, and else leaves the held keys as
  -- they were.
  pub press_tracked :
      (c : ClientConn) (m : SurfaceManager) (n : ℤ) (key : ℕ)
      → surface ≡ some m
      → in_bounds m n ≡ some key
      → ((handle marshal marshal_key marshal_layout dispatch delivered surface c
            (surface_press (some (some n, some true)))).0.held_surface_keys
          ≡ key ∷ remove_key key c.held_surface_keys)
        × ((handle marshal marshal_key marshal_layout dispatch delivered surface c
              (surface_press (some (some n, some false)))).0.held_surface_keys
            ≡ (if delivered key false
                then remove_key key c.held_surface_keys
                else c.held_surface_keys))
  unfolding handle handle_surface_press
  press_tracked c m n key there h =
      subst
        (λ s.
          ((press_on marshal marshal_key marshal_layout dispatch delivered surface c s
              (some (some n, some true))).0.held_surface_keys
            ≡ key ∷ remove_key key c.held_surface_keys)
          × ((press_on marshal marshal_key marshal_layout dispatch delivered surface c s
                (some (some n, some false))).0.held_surface_keys
              ≡ (if delivered key false
                  then remove_key key c.held_surface_keys
                  else c.held_surface_keys)))
        (sym there) (tracked_on c m n key h)
