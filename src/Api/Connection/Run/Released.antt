-- ===== src/Api/Connection/Run/Released.antt =====
-- client.go: the keys that Companion still sees pressed when a connection ends.
use cuebooth.Prelude.{
  ℕ, ◌≡◌, refl, sym, ◌∙◌, Bool, true, false, Option, none, some, List, [], Bytes,
}
use cuebooth.Api.Dispatch.{CmdFrame, Reply}
use cuebooth.Api.SendQueue.{pop}
use cuebooth.Api.Surface.{SurfaceManager, SurfaceLayoutFrame, SurfaceKeyFrame}
use cuebooth.Api.Connection.{
  ClientConn, Frame, Effect, StatusCode, send_snapshot, new_client_conn, state_frame,
}
use cuebooth.Api.Connection.Later.{Quiet, calls_onto-Silent, close_quiet, queued_quiet}
use cuebooth.Api.Connection.Quiet.{enqueue_quiet, replay_quiet}
use cuebooth.Api.Connection.Moves.{handle-Moves}
use cuebooth.Api.Connection.Run.Tracked.{latched, holds, IsTracked}
use cuebooth.Api.Connection.Run.{
  Live, Stage, joining, reading, returned, waiting, closed, released, gone, stopped, stage_after,
  opened, hello_queued, acted, Step, replay, read, stop_reading, finish, shut, release, leave,
  write, flush, stop_writing, lose, stop_pinging, shut_down, broadcast, broadcast_key,
  broadcast_layout, Reach, start, later,
}
use cuebooth.Api.Connection.Run.Latches.{
  grid_of_grid, Quiet-IsTracked, Moves-IsTracked, release_all,
}

-- Stages behind the wait for the other loops.
abbrev pub is_over : Stage → Bool
is_over closed = true
is_over released = true
is_over gone = true
is_over other = false

abbrev pub is_freed : Stage → Bool
is_freed released = true
is_freed gone = true
is_freed other = false

read_on :
    (o : Option (StatusCode × Bytes × Bool))
    → (is_freed (stage_after o) ≡ false) × (is_over (stage_after o) ≡ false)
read_on none = (refl, refl)
read_on (some first) = (refl, refl)

freed_over : (s : Stage) → is_freed s ≡ true → is_over s ≡ true
freed_over released e = refl
freed_over gone e = refl
freed_over closed e = refl
freed_over joining e = cc
freed_over reading e = cc
freed_over returned e = cc
freed_over waiting e = cc

module _ (Raw : Type 0) (marshal : Frame → Bytes) (marshal_key : SurfaceKeyFrame → Bytes)
    (marshal_layout : SurfaceLayoutFrame → Bytes) (grid : ℕ) where
  -- What holds of a connection: its keys are tracked; once they are released, none is held and none is
  -- latched; and once run has waited for the loops, they have stopped.
  pub record IsReleased (l : Live) : Type 0 where
    pub tracked : IsTracked grid l.conn.held_surface_keys l.calls
    pub freed :
        is_freed l.stage ≡ true
        → (k : ℕ) → (latched k l.calls ≡ false) × (holds k l.conn.held_surface_keys ≡ false)
    pub over : is_over l.stage ≡ true → (l.writer ≡ stopped) × (l.pings ≡ false)

  -- A step of the connection that presses nothing, in a stage or another.
  quietly :
      (l : Live) (p : ClientConn × List Effect)
      → Quiet marshal l.conn p
      → IsReleased l
      → IsReleased (acted l p)
  quietly l p q r = record {
    tracked = Quiet-IsTracked marshal grid l.conn p l.calls q r.tracked;
    freed = λ at k. rw (q.held, calls_onto-Silent l.calls p.1 q.silent) (r.freed at k);
    over = r.over;
  }

  Step-IsReleased :
      {k l : Live}
      → Step Raw marshal marshal_key marshal_layout grid k l
      → IsReleased k
      → IsReleased l
  Step-IsReleased (replay l dispatch delivered surface at of_grid) r = record {
    tracked =
        Quiet-IsTracked marshal grid l.conn _ l.calls
          (replay_quiet marshal marshal_key marshal_layout dispatch delivered surface surface
            l.conn)
          r.tracked;
    freed = λ e. cc;
    over = λ e. cc;
  }
  Step-IsReleased (read l dispatch delivered surface f at of_grid) r = record {
    tracked =
        Moves-IsTracked marshal grid l.conn _ l.calls (grid_of_grid surface of_grid)
          (handle-Moves marshal marshal_key marshal_layout dispatch delivered surface l.conn f)
          r.tracked;
    freed = λ e. absurd (cc ((read_on _).0, e));
    over = λ e. absurd (cc ((read_on _).1, e));
  }
  Step-IsReleased (stop_reading l at) r = record {
    tracked = r.tracked;
    freed = λ e. cc;
    over = λ e. cc;
  }
  Step-IsReleased (finish l at) r = record {
    tracked =
        Quiet-IsTracked marshal grid l.conn _ l.calls (close_quiet marshal l.conn _ _) r.tracked;
    freed = λ e. cc;
    over = λ e. cc;
  }
  Step-IsReleased (shut l at done quiet) r = record {
    tracked = r.tracked;
    freed = λ e. cc;
    over = λ e. (done, quiet);
  }
  Step-IsReleased (release l dispatch delivered surface at of_grid) r =
      let all = λ (k : ℕ).
        release_all Raw marshal marshal_key marshal_layout grid l dispatch delivered surface k
          of_grid r.tracked in
      record {
        tracked = record {
          latch = λ k h. absurd (cc ((all k).0, h));
          inside = λ k h. absurd (cc ((all k).1, h));
        };
        freed = λ e k. all k;
        over = λ e. r.over (rw at refl);
      }
  Step-IsReleased (leave l at) r = record {
    tracked = r.tracked;
    freed = λ e k. r.freed (rw at refl) k;
    over = λ e. r.over (rw at refl);
  }
  Step-IsReleased (write l payload true busy e) r = record {
    tracked = r.tracked;
    freed = r.freed;
    over = r.over;
  }
  Step-IsReleased (write l payload false busy e) r =
      let sent : Live = record l { conn = record l.conn { send = (pop l.conn.send).0 } } in
      let kept : IsReleased sent = record { tracked = r.tracked; freed = r.freed; over = r.over } in
      let after = quietly sent _ (close_quiet marshal sent.conn _ _) kept in
      record {
        tracked = after.tracked;
        freed = after.freed;
        over = λ h. absurd (busy (r.over h).0);
      }
  Step-IsReleased (flush l first at e) r = record {
    tracked = r.tracked;
    freed = r.freed;
    over = λ h. absurd (cc (sym at ∙ (r.over h).0));
  }
  Step-IsReleased (stop_writing l at e) r = record {
    tracked = r.tracked;
    freed = r.freed;
    over = λ h. (refl, (r.over h).1);
  }
  Step-IsReleased (lose l at) r =
      let after = quietly l _ (close_quiet marshal l.conn _ _) r in
      record { tracked = after.tracked; freed = after.freed; over = λ h. ((r.over h).0, refl) }
  Step-IsReleased (stop_pinging l first e) r = record {
    tracked = r.tracked;
    freed = r.freed;
    over = λ h. ((r.over h).0, refl);
  }
  Step-IsReleased (shut_down l reason) r = quietly l _ (close_quiet marshal l.conn _ _) r
  Step-IsReleased (broadcast l payload at) r = quietly l _ (queued_quiet marshal l.conn payload) r
  Step-IsReleased (broadcast_key l key seq payload at) r = record {
    tracked = r.tracked;
    freed = r.freed;
    over = r.over;
  }
  Step-IsReleased (broadcast_layout l seq payload at) r = record {
    tracked = r.tracked;
    freed = r.freed;
    over = r.over;
  }

  start-IsReleased :
      (hello : Bytes) (dispatch : CmdFrame Raw → Reply) (delivered : ℕ → Bool → Bool)
      (surface : Option SurfaceManager)
      → IsReleased (
          opened
            (send_snapshot marshal marshal_key marshal_layout dispatch delivered surface
              (hello_queued hello)).0)
  unfolding send_snapshot new_client_conn
  start-IsReleased hello dispatch delivered surface =
      let greeted = queued_quiet marshal new_client_conn hello in
      let sent =
        enqueue_quiet marshal marshal_key marshal_layout dispatch delivered surface
          (hello_queued hello) (state_frame (hello_queued hello).topics) in
      let nothing : IsTracked grid [] [] = record {
        latch = λ k h. cc;
        inside = λ k h. absurd (cc h);
      } in
      record { tracked = rw (sent.held ∙ greeted.held) nothing; freed = λ e. cc; over = λ e. cc }

  pub Reach-IsReleased :
      {l : Live} → Reach Raw marshal marshal_key marshal_layout grid l → IsReleased l
  Reach-IsReleased (start hello dispatch delivered surface) =
      start-IsReleased hello dispatch delivered surface
  Reach-IsReleased (later r s) = Step-IsReleased s (Reach-IsReleased r)

  -- Once run has released the held keys of a connection, whatever its client did and however it ended,
  -- the last call of the satellite's Press that it made for any key, be it taken or refused, was no
  -- press, it holds no key, and its writer and its pinger have stopped.
  pub none_latched :
      (l : Live) (k : ℕ)
      → Reach Raw marshal marshal_key marshal_layout grid l
      → is_freed l.stage ≡ true
      → (latched k l.calls ≡ false)
        × ((holds k l.conn.held_surface_keys ≡ false) × ((l.writer ≡ stopped) × (l.pings ≡ false)))
  none_latched l k r e =
      let t = Reach-IsReleased r in
      let (calm, free) = t.freed e k in (calm, (free, t.over (freed_over l.stage e)))
