-- ===== src/Api/Connection/Run/Told.antt =====
-- client.go: the close handshake, and the error frame that comes before it.
use cuebooth.Prelude.{
  ℕ, ◌≡◌, refl, sym, ◌∙◌, subst, Bool, true, false, Option, none, some, List, [], ◌⊎◌, inl, inr,
  Bytes,
}
use cuebooth.Api.Dispatch.{CmdFrame, Reply, protocol}
use cuebooth.Api.SendQueue.{pop}
use cuebooth.Api.SendQueue.StateLane.{state-push_surface_key, state-push_surface_layout}
use cuebooth.Api.Surface.{SurfaceManager, SurfaceLayoutFrame, SurfaceKeyFrame}
use cuebooth.Api.Connection.{
  ClientConn, Frame, StatusCode, Effect, invalid_payload, abnormal_closure,
  release_held_surface_keys, send_snapshot, new_client_conn, state_frame, error_frame, release_on,
}
use cuebooth.Api.Connection.Later.{
  Fine, fine_map, Later, Member, told, same_later, close_quiet, queued_quiet, full_close,
}
use cuebooth.Api.Connection.Quiet.{enqueue_quiet, replay_quiet}
use cuebooth.Api.Connection.Moves.{Moves, handle-Moves}
use cuebooth.Api.Connection.Run.Writes.{taken, only_written, shut_as}
use cuebooth.Api.Connection.Run.{
  Live, opened, hello_queued, Writer, writing, stopped, Socket, connected, handshake, write_frame,
  Step, replay, read, stop_reading, finish, shut, release, leave, write, flush, stop_writing, lose,
  stop_pinging, shut_down, broadcast, broadcast_key, broadcast_layout, Reach, start, later,
}

module _ (Raw : Type 0) (marshal : Frame → Bytes) (marshal_key : SurfaceKeyFrame → Bytes)
    (marshal_layout : SurfaceLayoutFrame → Bytes) (grid : ℕ) where
  -- A close with a handshake has been told: the error frame is queued or written, and written once
  -- the writer has stopped; a writer that goes to its end has seen the close; and the socket ends as
  -- the close says.
  pub record IsTold (c : ClientConn) (written : List Bytes) (w : Writer) (failed : Bool)
      (s : Socket) : Type 0 where
    pub heard :
        failed ≡ false
        → Fine c.closing (Member (told marshal) c.send.state ⊎ Member (told marshal) written)
    pub finished : failed ≡ false → w ≡ stopped → Fine c.closing (Member (told marshal) written)
    pub seen : ¬ (w ≡ writing) → ¬ (c.closing ≡ none)
    pub ended :
        (code : StatusCode) (reason : Bytes)
        → s ≡ handshake code reason
        → (c.closing ≡ some (code, reason, true)) × (w ≡ stopped)

  abbrev pub Told : Live → Type 0
  Told l = IsTold l.conn l.written l.writer l.failed l.socket

  module _ {c d : ClientConn} {written : List Bytes} {w : Writer} {failed : Bool} {s : Socket} where
    -- A step of the connection alone.
    moved : Later marshal c d → IsTold c written w failed s → IsTold d written w failed s
    moved p t = record {
      heard = λ safe. heard_after p.closes (t.heard safe);
      finished = λ safe at. settled p.closes (t.seen (busy at)) (t.finished safe at);
      seen = λ late none_now. still p.closes (t.seen late) none_now;
      ended =
          λ code reason e. let (was, at) = t.ended code reason e in (kept_close p.closes was, at);
    }
      where
        busy : w ≡ stopped → ¬ (w ≡ writing)
        busy at e = cc

        kept_either :
            Member (told marshal) c.send.state ⊎ Member (told marshal) written
            → Member (told marshal) d.send.state ⊎ Member (told marshal) written
        kept_either (inl m) = inl (p.kept (told marshal) m)
        kept_either (inr m) = inr m

        heard_after :
            (d.closing ≡ c.closing)
              ⊎ ((c.closing ≡ none) × Fine d.closing (Member (told marshal) d.send.state))
            → Fine c.closing (Member (told marshal) c.send.state ⊎ Member (told marshal) written)
            → Fine d.closing (Member (told marshal) d.send.state ⊎ Member (told marshal) written)
        heard_after (inl e) h =
            subst (λ o. Fine o (Member (told marshal) d.send.state ⊎ Member (told marshal) written))
              (sym e) (fine_map c.closing kept_either h)
        heard_after (inr (e, f)) h = fine_map d.closing inl f

        settled :
            (d.closing ≡ c.closing)
              ⊎ ((c.closing ≡ none) × Fine d.closing (Member (told marshal) d.send.state))
            → ¬ (c.closing ≡ none)
            → Fine c.closing (Member (told marshal) written)
            → Fine d.closing (Member (told marshal) written)
        settled (inl e) n h = subst (λ o. Fine o (Member (told marshal) written)) (sym e) h
        settled (inr (e, f)) n h = absurd (n e)

        still :
            (d.closing ≡ c.closing)
              ⊎ ((c.closing ≡ none) × Fine d.closing (Member (told marshal) d.send.state))
            → ¬ (c.closing ≡ none)
            → ¬ (d.closing ≡ none)
        still (inl e) n h = n (sym e ∙ h)
        still (inr (e, f)) n h = n e

        kept_close :
            {first : StatusCode × Bytes × Bool}
            → (d.closing ≡ c.closing)
              ⊎ ((c.closing ≡ none) × Fine d.closing (Member (told marshal) d.send.state))
            → c.closing ≡ some first
            → d.closing ≡ some first
        kept_close (inl e) h = e ∙ h
        kept_close (inr (e, f)) h = absurd (cc (sym e ∙ h))

  write-Told :
      (l : Live) (payload : Bytes) (succeeds : Bool)
      → ¬ (l.writer ≡ stopped)
      → (pop l.conn.send).1 ≡ some payload
      → Told l
      → Told (
          write_frame
            (record l { conn = record l.conn { send = (pop l.conn.send).0 } })
            payload
            succeeds)
  write-Told l payload true busy e t = record {
    heard = λ safe.
        fine_map l.conn.closing (taken marshal l.conn.send payload l.written e) (t.heard safe);
    finished = λ safe at. absurd (busy at);
    seen = t.seen;
    ended = t.ended;
  }
  write-Told l payload false busy e t = record {
    heard = λ safe. cc;
    finished = λ safe. cc;
    seen = λ late h. full_close marshal _ abnormal_closure _ h;
    ended = λ code reason s. absurd (busy (t.ended code reason s).1);
  }

  handled :
      {c : ClientConn} {written : List Bytes} {w : Writer} {failed : Bool} {s : Socket} {n : ℕ}
      (p : ClientConn × List Effect)
      → Moves marshal n c p
      → IsTold c written w failed s
      → IsTold p.0 written w failed s
  handled p (inl q) t = moved q.later t
  handled p (inr (key, down, below, q)) t = moved q.later t

  released-Told :
      (l : Live) (dispatch : CmdFrame Raw → Reply) (delivered : ℕ → Bool → Bool)
      (surface : Option SurfaceManager)
      → Told l
      → IsTold
          (release_held_surface_keys marshal marshal_key marshal_layout dispatch delivered surface
            l.conn).0
          l.written
          l.writer
          l.failed
          l.socket
  unfolding release_held_surface_keys release_on
  released-Told l dispatch delivered none t = t
  released-Told l dispatch delivered (some m) t = moved (same_later marshal _ _ refl refl) t

  Step-Told : {k l : Live} → Step Raw marshal marshal_key marshal_layout grid k l → Told k → Told l
  Step-Told (replay l dispatch delivered surface at of_grid) t =
      moved
        (replay_quiet marshal marshal_key marshal_layout dispatch delivered surface surface
          l.conn).later
        t
  Step-Told (read l dispatch delivered surface f at of_grid) t =
      handled _
        (handle-Moves marshal marshal_key marshal_layout dispatch delivered surface l.conn f) t
  Step-Told (stop_reading l at) t = t
  Step-Told (finish l at) t = moved (close_quiet marshal l.conn _ _).later t
  Step-Told (shut l at done quiet) t = record {
    heard = t.heard;
    finished = t.finished;
    seen = t.seen;
    ended = λ code reason e. (shut_as marshal l.conn.closing code reason e, done);
  }
  Step-Told (release l dispatch delivered surface at of_grid) t =
      released-Told l dispatch delivered surface t
  Step-Told (leave l at) t = moved (same_later marshal _ _ refl refl) t
  Step-Told (write l payload succeeds busy e) t = write-Told l payload succeeds busy e t
  Step-Told (flush l first at e) t = record {
    heard = t.heard;
    finished = λ safe. cc;
    seen = λ late h. cc (sym e ∙ h);
    ended = λ code reason s. absurd (cc (sym at ∙ (t.ended code reason s).1));
  }
  Step-Told (stop_writing l at e) t = record {
    heard = t.heard;
    finished = λ safe done.
        fine_map l.conn.closing (only_written marshal l.conn.send l.written e) (t.heard safe);
    seen = λ late. t.seen (λ w. cc (sym at ∙ w));
    ended = λ code reason s. ((t.ended code reason s).0, refl);
  }
  Step-Told (lose l at) t = moved (close_quiet marshal l.conn _ _).later t
  Step-Told (stop_pinging l first e) t = t
  Step-Told (shut_down l reason) t = moved (close_quiet marshal l.conn _ _).later t
  Step-Told (broadcast l payload at) t = moved (queued_quiet marshal l.conn payload).later t
  Step-Told (broadcast_key l key seq payload at) t =
      moved (same_later marshal _ _ (state-push_surface_key l.conn.send key seq payload) refl) t
  Step-Told (broadcast_layout l seq payload at) t =
      moved (same_later marshal _ _ (state-push_surface_layout l.conn.send seq payload) refl) t

  start-Told :
      (hello : Bytes) (dispatch : CmdFrame Raw → Reply) (delivered : ℕ → Bool → Bool)
      (surface : Option SurfaceManager)
      → Told (
          opened
            (send_snapshot marshal marshal_key marshal_layout dispatch delivered surface
              (hello_queued hello)).0)
  unfolding send_snapshot new_client_conn
  start-Told hello dispatch delivered surface =
      let fresh : IsTold new_client_conn [] writing false connected = record {
        heard = λ safe. tt;
        finished = λ safe. cc;
        seen = λ late. absurd (late refl);
        ended = λ code reason. cc;
      } in
      let greeted = moved (queued_quiet marshal new_client_conn hello).later fresh in
      let told_state =
        moved
          (enqueue_quiet marshal marshal_key marshal_layout dispatch delivered surface
            (hello_queued hello) (state_frame (hello_queued hello).topics)).later
          greeted in
      moved (same_later marshal _ _ refl refl) told_state

  pub Reach-Told : {l : Live} → Reach Raw marshal marshal_key marshal_layout grid l → Told l
  Reach-Told (start hello dispatch delivered surface) = start-Told hello dispatch delivered surface
  Reach-Told (later r s) = Step-Told s (Reach-Told r)

  -- A connection that ends with a close handshake, and of which no write has failed, ends with the
  -- code 1007, its writer has stopped, and the protocol error frame was written to it before.
  pub handshake_told :
      (l : Live) (code : StatusCode) (reason : Bytes)
      → Reach Raw marshal marshal_key marshal_layout grid l
      → l.socket ≡ handshake code reason
      → l.failed ≡ false
      → (l.writer ≡ stopped)
        × ((code ≡ invalid_payload) × Member (marshal (error_frame protocol)) l.written)
  handshake_told l code reason r e safe =
      let t = Reach-Told r in
      let (was, at) = t.ended code reason e in
      (at, subst (λ o. Fine o (Member (told marshal) l.written)) was (t.finished safe at))
