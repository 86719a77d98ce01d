-- ===== src/Api/Connection/Run/Latches.antt =====
-- client.go: the calls of the satellite's Press that a connection makes, over the steps of its reader.
use cuebooth.Prelude.{
  ℕ, ◌<◌, ◌≡◌, refl, sym, Bool, true, false, Option, none, some, List, [], ◌∷◌, ◌⊎◌, inl, inr,
  Bytes, if◌then◌else◌, arith, lt→ltb,
}
use cuebooth.Api.Dispatch.{CmdFrame, Reply}
use cuebooth.Api.Surface.{SurfaceManager, SurfaceLayoutFrame, SurfaceKeyFrame, press, key_count}
use cuebooth.Api.Connection.{
  ClientConn, Frame, Effect, remove_key, release_held_surface_keys, release_on, release_each,
  presses_of,
}
use cuebooth.Api.Connection.Later.{Quiet, calls_onto, calls_onto-Silent}
use cuebooth.Api.Connection.Moves.{Moves, grid_of}
use cuebooth.Api.Connection.Run.Tracked.{
  latched, holds, IsTracked, pressed-IsTracked, released-IsTracked, kept-IsTracked,
}
use cuebooth.Api.Connection.Run.{Live, OfGrid}

pub grid_of_grid : {grid : ℕ} (s : Option SurfaceManager) → OfGrid grid s → grid_of s ≡ grid
grid_of_grid none h = sym h
grid_of_grid (some m) h = h

abbrev Below : ℕ → List ℕ → Type 0
Below grid keys = (k : ℕ) → holds k keys ≡ true → k < grid

module _ (marshal : Frame → Bytes) (grid : ℕ) where
  pub Quiet-IsTracked :
      (c : ClientConn) (p : ClientConn × List Effect) (calls : List (ℕ × Bool))
      → Quiet marshal c p
      → IsTracked grid c.held_surface_keys calls
      → IsTracked grid p.0.held_surface_keys (calls_onto calls p.1)
  Quiet-IsTracked c p calls q t = rw (q.held, calls_onto-Silent calls p.1 q.silent) t

  pub Moves-IsTracked :
      {n : ℕ} (c : ClientConn) (p : ClientConn × List Effect) (calls : List (ℕ × Bool))
      → n ≡ grid
      → Moves marshal n c p
      → IsTracked grid c.held_surface_keys calls
      → IsTracked grid p.0.held_surface_keys (calls_onto calls p.1)
  Moves-IsTracked c p calls e (inl q) t = Quiet-IsTracked c p calls q t
  Moves-IsTracked c p calls e (inr (key, true, below, q)) t =
      rw (q.pressed refl, q.calls calls)
        (pressed-IsTracked c.held_surface_keys calls key (rw e at below) t)
  Moves-IsTracked c p calls e (inr (key, false, below, q)) t = either_way (q.released refl)
    where
      either_way :
          (p.0.held_surface_keys ≡ c.held_surface_keys)
            ⊎ (p.0.held_surface_keys ≡ remove_key key c.held_surface_keys)
          → IsTracked grid p.0.held_surface_keys (calls_onto calls p.1)
      either_way (inl same) =
          rw (same, q.calls calls) (kept-IsTracked c.held_surface_keys calls key t)
      either_way (inr gone_key) =
          rw (gone_key, q.calls calls) (released-IsTracked c.held_surface_keys calls key t)

module _ (Raw : Type 0) (marshal : Frame → Bytes) (marshal_key : SurfaceKeyFrame → Bytes)
    (marshal_layout : SurfaceLayoutFrame → Bytes) (grid : ℕ) where
  released_each :
      (dispatch : CmdFrame Raw → Reply) (delivered : ℕ → Bool → Bool)
      (surface : Option SurfaceManager) (m : SurfaceManager) (keys : List ℕ)
      (calls : List (ℕ × Bool)) (k : ℕ)
      → Below (key_count m) keys
      → latched k (
          calls_onto calls
            (release_each marshal marshal_key marshal_layout dispatch delivered surface m keys))
        ≡ (if holds k keys then false else latched k calls)
  unfolding release_each presses_of press
  released_each dispatch delivered surface m [] calls k below = refl
  released_each dispatch delivered surface m (key ∷ keys) calls k below =
      let inside = lt→ltb key (key_count m) (below key (ground arith)) in
      let rest =
        released_each dispatch delivered surface m keys ((key, false) ∷ calls) k
          (λ j h. below j (ground (arith, h))) in
      rw inside (ground (arith, rest))

  pub release_all :
      (l : Live) (dispatch : CmdFrame Raw → Reply) (delivered : ℕ → Bool → Bool)
      (surface : Option SurfaceManager) (k : ℕ)
      → OfGrid grid surface
      → IsTracked grid l.conn.held_surface_keys l.calls
      → let p =
          release_held_surface_keys marshal marshal_key marshal_layout dispatch delivered surface
            l.conn in
        (latched k (calls_onto l.calls p.1) ≡ false) × (holds k p.0.held_surface_keys ≡ false)
  unfolding release_held_surface_keys release_on
  release_all l dispatch delivered none k e t =
      (ground (arith, t.latch k, t.inside k, e), ground (arith, t.inside k, e))
  release_all l dispatch delivered (some m) k e t = (
    rw
        (released_each dispatch delivered (some m) m l.conn.held_surface_keys l.calls k
          (λ j h. rw e (t.inside j h)))
        (ground (arith, t.latch k)),
    refl,
  )
