-- ===== src/Api/Connection/Moves.antt =====
-- client.go: what handle makes of each frame, in one of two ways.
use cuebooth.Prelude.{
  ℕ, ◌<◌, ◌≡◌, refl, Bool, true, false, Option, none, some, List, [], ◌∷◌, ◌⊎◌, Bytes, ℤ, pos,
  negsuc, Option-cases, Bool-cases, inl, inr, ltb, if◌then◌else◌, ltb→lt,
}
use cuebooth.Bytes.{bytes}
use cuebooth.Api.Dispatch.{CmdFrame, Reply, protocol}
use cuebooth.Api.Surface.{SurfaceManager, SurfaceLayoutFrame, SurfaceKeyFrame, in_bounds, key_count}
use cuebooth.Api.Connection.{
  ClientConn, Frame, Inbound, Effect, remove_key, track_surface_hold, enqueue, after_press,
  press_at, press_on, handle_surface_press, handle, malformed, cmd, subscribe, unsubscribe,
  get_state, surface_press, ping, unknown, error_frame, event_frame, state_frame, send_snapshot,
  presses_of,
}
use cuebooth.Api.Connection.Holds.{press-delivered}
use cuebooth.Api.Connection.Later.{
  Later, Quiet, calls_onto, calls_onto-Silent, same_later, then_later, unchanged,
}
use cuebooth.Api.Connection.Quiet.{
  enqueue_quiet, cmd_quiet, ping_quiet, subscription_quiet, malformed_quiet,
}

-- The grid that the surface manager has, where there is one.
abbrev pub grid_of : Option SurfaceManager → ℕ
grid_of none = 0
grid_of (some m) = key_count m

module _ (marshal : Frame → Bytes) where
  -- A press or a release of a key goes to Companion once; the key is held from a press on, and until
  -- a release that Companion has taken.
  pub record Presses (c : ClientConn) (key : ℕ) (down : Bool) (p : ClientConn × List Effect)
      : Type 0 where
    pub later : Later marshal c p.0
    pub calls : (before : List (ℕ × Bool)) → calls_onto before p.1 ≡ (key, down) ∷ before
    pub pressed : down ≡ true → p.0.held_surface_keys ≡ key ∷ remove_key key c.held_surface_keys
    pub released :
        down ≡ false
        → (p.0.held_surface_keys ≡ c.held_surface_keys)
          ⊎ (p.0.held_surface_keys ≡ remove_key key c.held_surface_keys)

  -- A frame presses a key below `grid`, or presses nothing.
  abbrev pub Moves : ℕ → ClientConn → ClientConn × List Effect → Type 0
  Moves grid c p =
      Quiet marshal c p ⊎ ((key : ℕ) × (down : Bool) × (key < grid) × Presses c key down p)

  module _ {Raw : Type 0} (marshal_key : SurfaceKeyFrame → Bytes)
      (marshal_layout : SurfaceLayoutFrame → Bytes) (dispatch : CmdFrame Raw → Reply)
      (delivered : ℕ → Bool → Bool) (surface : Option SurfaceManager) where
    answered :
        (c : ClientConn) (f : Frame)
        → Quiet marshal c
            (enqueue marshal marshal_key marshal_layout dispatch delivered surface c f)
    answered c f = enqueue_quiet marshal marshal_key marshal_layout dispatch delivered surface c f

    -- The event that tells a client that its press was not taken.
    abbrev refused : ClientConn → ClientConn × List Effect
    refused c =
        enqueue marshal marshal_key marshal_layout dispatch delivered surface c
          (event_frame (bytes "Companion surface unavailable"))

    refusal : (c : ClientConn) → Quiet marshal c (refused c)
    refusal c = answered c _

    after-Presses :
        (c : ClientConn) (key : ℕ) (down sent : Bool)
        → Presses c key down (
            after_press marshal marshal_key marshal_layout dispatch delivered surface
              (if down then track_surface_hold c key true else c)
              key
              down
              (sent, (key, down) ∷ []))
    unfolding after_press track_surface_hold presses_of
    after-Presses c key true true = record {
      later = same_later marshal _ _ refl refl;
      calls = λ before. refl;
      pressed = λ e. refl;
      released = λ e. cc;
    }
    after-Presses c key false true = record {
      later = same_later marshal _ _ refl refl;
      calls = λ before. refl;
      pressed = λ e. cc;
      released = λ e. inr refl;
    }
    after-Presses c key true false =
        let held_conn = record c { held_surface_keys = key ∷ remove_key key c.held_surface_keys } in
        let told = refusal held_conn in
        record {
          later = then_later marshal (same_later marshal c held_conn refl refl) told.later;
          calls =
              λ before. calls_onto-Silent ((key, true) ∷ before) (refused held_conn).1 told.silent;
          pressed = λ e. told.held;
          released = λ e. cc;
        }
    after-Presses c key false false =
        let told = refusal c in
        record {
          later = told.later;
          calls = λ before. calls_onto-Silent ((key, false) ∷ before) (refused c).1 told.silent;
          pressed = λ e. cc;
          released = λ e. inl told.held;
        }

    in_bounds-lt :
        (m : SurfaceManager) (n : ℤ) (key : ℕ) → in_bounds m n ≡ some key → key < key_count m
    unfolding in_bounds
    in_bounds-lt m (negsuc n) key h = absurd (cc h)
    in_bounds-lt m (pos n) key h = elim (Bool-cases (ltb n (key_count m))) [
      | inl inside ↦
          let same : some n ≡ some key = rw inside at h in
          let e : n ≡ key = cc in rw (← e) (ltb→lt n (key_count m) inside)
      | inr outside ↦ absurd (cc (rw outside at h))
    ]

    press_at-Moves :
        (c : ClientConn) (m : SurfaceManager) (n : ℤ) (down : Bool)
        → Moves (key_count m) c (
            press_at marshal marshal_key marshal_layout dispatch delivered surface c m down
              (in_bounds m n))
    unfolding press_at
    press_at-Moves c m n down = elim (Option-cases (in_bounds m n)) [
      | inl outside ↦ rw outside (inl (unchanged marshal c))
      | inr (key, inside) ↦
          rw
            (
              inside,
              press-delivered marshal marshal_key marshal_layout dispatch delivered surface m n key
                  down inside,
            )
            (inr (
              key,
              down,
              in_bounds-lt m n key inside,
              after-Presses c key down (delivered key down),
            ))
    ]

    press_on-Moves :
        (c : ClientConn) (s : Option SurfaceManager) (f : Option (Option ℤ × Option Bool))
        → Moves
            (grid_of s)
            c
            (press_on marshal marshal_key marshal_layout dispatch delivered surface c s f)
    unfolding press_on
    press_on-Moves c none (some (some n, some down)) = inl (answered c _)
    press_on-Moves c (some m) (some (some n, some down)) = press_at-Moves c m n down
    press_on-Moves c none none = inl (answered c (error_frame protocol))
    press_on-Moves c (some m) none = inl (answered c (error_frame protocol))
    press_on-Moves c none (some (none, down)) = inl (answered c (error_frame protocol))
    press_on-Moves c (some m) (some (none, down)) = inl (answered c (error_frame protocol))
    press_on-Moves c none (some (some n, none)) = inl (answered c (error_frame protocol))
    press_on-Moves c (some m) (some (some n, none)) = inl (answered c (error_frame protocol))

    -- Whatever frame a client sends, it presses one key of the grid or none.
    pub handle-Moves :
        (c : ClientConn) (f : Inbound Raw)
        → Moves
            (grid_of surface)
            c
            (handle marshal marshal_key marshal_layout dispatch delivered surface c f)
    unfolding handle handle_surface_press send_snapshot
    handle-Moves c malformed = inl (
        unfold handle in
        malformed_quiet marshal marshal_key marshal_layout dispatch delivered surface c)
    handle-Moves c (cmd f) =
        inl (cmd_quiet marshal marshal_key marshal_layout dispatch delivered surface c f)
    handle-Moves c (subscribe f) =
        inl (
          subscription_quiet marshal marshal_key marshal_layout dispatch delivered surface c f true)
    handle-Moves c (unsubscribe f) =
        inl (
          subscription_quiet marshal marshal_key marshal_layout dispatch delivered surface c f
            false)
    handle-Moves c get_state = inl (answered c (state_frame c.topics))
    handle-Moves c (surface_press f) = press_on-Moves c surface f
    handle-Moves c (ping f) =
        inl (ping_quiet marshal marshal_key marshal_layout dispatch delivered surface c f)
    handle-Moves c unknown = inl (unchanged marshal c)
