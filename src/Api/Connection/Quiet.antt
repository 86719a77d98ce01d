-- ===== src/Api/Connection/Quiet.antt =====
-- client.go: what each frame of the client, other than a press, does to its connection.
use cuebooth.Prelude.{
  either, ℕ, ◌≡◌, refl, ◌∙◌, Bool, true, false, not, ◌||◌, Option, none, some, List, [], ◌∷◌, Bytes,
  Option-cases, Bool-cases, inl, inr, leb, length,
}
use cuebooth.Bytes.{bytes, equal}
use cuebooth.Api.Dispatch.{CmdFrame, Reply, nak, done, protocol, unknown_topic}
use cuebooth.Api.SendQueue.{push_other, push_surface_key, push_surface_layout, send_buffer, poke}
use cuebooth.Api.SendQueue.StateLane.{state-push_surface_key, state-push_surface_layout}
use cuebooth.Api.Surface.{
  SurfaceManager, Sent, layout_sent, key_sent, SurfaceLayoutFrame, SurfaceKeyFrame, send_initial,
}
use cuebooth.Api.Connection.{
  ClientConn, Frame, Effect, invalid_payload, close, close_at, queued, enqueue, after_dispatch,
  handle_cmd, enqueue_surface, replay_surface, send_snapshot, handle_subscription, handle_ping,
  handle, malformed, join_hub, set_topics, all_valid, error_frame, nak_frame, ack, pong,
  state_frame, then_do, applied,
}
use cuebooth.Api.Connection.Later.{
  join-Silent, Member, member_last, Quiet, same_later, then_later, queued_quiet, surface_later,
  unchanged, full_close, told,
}

module _ (marshal : Frame → Bytes) {Raw : Type 0} (marshal_key : SurfaceKeyFrame → Bytes)
    (marshal_layout : SurfaceLayoutFrame → Bytes) (dispatch : CmdFrame Raw → Reply)
    (delivered : ℕ → Bool → Bool) (surface : Option SurfaceManager) where
  pub then_quiet :
      (c : ClientConn) (p : ClientConn × List Effect) (f : ClientConn → ClientConn × List Effect)
      → Quiet marshal c p
      → Quiet marshal p.0 (f p.0)
      → Quiet marshal c (then_do marshal marshal_key marshal_layout dispatch delivered surface p f)
  then_quiet c p f a b = record {
    later = then_later marshal a.later b.later;
    held = b.held ∙ a.held;
    silent = join-Silent p.1 (f p.0).1 a.silent b.silent;
  }

  pub enqueue_quiet :
      (c : ClientConn) (f : Frame)
      → Quiet marshal c (enqueue marshal marshal_key marshal_layout dispatch delivered surface c f)
  unfolding enqueue
  enqueue_quiet c f = queued_quiet marshal c (marshal f)

  dispatched_quiet :
      (c : ClientConn) (id : Bytes) (r : Reply)
      → Quiet marshal c
          (after_dispatch marshal marshal_key marshal_layout dispatch delivered surface c id r)
  unfolding after_dispatch
  dispatched_quiet c id (nak code) = enqueue_quiet c (nak_frame id code)
  dispatched_quiet c id (done none) = enqueue_quiet c (ack id)
  dispatched_quiet c id (done (some mutate)) =
      then_quiet c _ (λ c'. (c', applied mutate ∷ [])) (enqueue_quiet c (ack id))
        (record { later = same_later marshal _ _ refl refl; held = refl; silent = tt })

  pub cmd_quiet :
      (c : ClientConn) (f : Option (CmdFrame Raw))
      → Quiet marshal c
          (handle_cmd marshal marshal_key marshal_layout dispatch delivered surface c f)
  unfolding handle_cmd
  cmd_quiet c none = enqueue_quiet c (error_frame protocol)
  cmd_quiet c (some f) =
      either (Quiet marshal c) (equal f.id [] || equal f.target [])
        (enqueue_quiet c (error_frame protocol)) (dispatched_quiet c f.id (dispatch f))

  pub ping_quiet :
      (c : ClientConn) (f : Option Bytes)
      → Quiet marshal c
          (handle_ping marshal marshal_key marshal_layout dispatch delivered surface c f)
  unfolding handle_ping
  ping_quiet c none = enqueue_quiet c (error_frame protocol)
  ping_quiet c (some id) =
      either (Quiet marshal c) (equal id []) (enqueue_quiet c (error_frame protocol))
        (enqueue_quiet c (pong id))

  pub surfaced_quiet :
      (c : ClientConn) (sent : List Sent)
      → Quiet marshal c
          (enqueue_surface marshal marshal_key marshal_layout dispatch delivered surface c sent, [])
  unfolding enqueue_surface
  surfaced_quiet c [] = unchanged marshal c
  surfaced_quiet c (layout_sent l ∷ rest) =
      let q = push_surface_layout c.send l.seq (marshal_layout l) in
      let moved =
        surface_later marshal c q (state-push_surface_layout c.send l.seq (marshal_layout l)) in
      let more = surfaced_quiet (record c { send = q }) rest in
      record { later = then_later marshal moved more.later; held = more.held; silent = tt }
  surfaced_quiet c (key_sent f ∷ rest) =
      let q = push_surface_key c.send f.key f.seq (marshal_key f) in
      let moved =
        surface_later marshal c q (state-push_surface_key c.send f.key f.seq (marshal_key f)) in
      let more = surfaced_quiet (record c { send = q }) rest in
      record { later = then_later marshal moved more.later; held = more.held; silent = tt }

  pub replay_quiet :
      (s : Option SurfaceManager) (c : ClientConn)
      → Quiet marshal c
          (replay_surface marshal marshal_key marshal_layout dispatch delivered surface s c, [])
  unfolding replay_surface
  replay_quiet none c = unchanged marshal c
  replay_quiet (some m) c = surfaced_quiet c (send_initial m)

  pub subscription_quiet :
      (c : ClientConn) (f : Option (List Bytes)) (subscribed : Bool)
      → Quiet marshal c (
          handle_subscription marshal marshal_key marshal_layout dispatch delivered surface c f
            subscribed)
  unfolding handle_subscription send_snapshot join_hub
  subscription_quiet c none subscribed = enqueue_quiet c (error_frame protocol)
  subscription_quiet c (some ts) subscribed =
      let changed : ClientConn = record c {
        in_hub = false;
        topics = set_topics subscribed ts c.topics;
      } in
      let sent = enqueue_quiet changed (state_frame changed.topics) in
      let joined =
        then_quiet changed _ (λ d. (record d { in_hub = true }, [])) sent
          (record { later = same_later marshal _ _ refl refl; held = refl; silent = tt }) in
      let replayed =
        then_quiet changed _
          (λ d. (
            replay_surface marshal marshal_key marshal_layout dispatch delivered surface surface d,
            [],
          ))
          joined (replay_quiet surface _) in
      either (Quiet marshal c) (not (all_valid ts)) (enqueue_quiet c (error_frame unknown_topic))
        (record {
          later = then_later marshal (same_later marshal c changed refl refl) replayed.later;
          held = replayed.held;
          silent = replayed.silent;
        })

  -- The close that follows a malformed frame.
  told_close :
      (c : ClientConn) (reason : Bytes)
      → (c.closing ≡ none → Member (told marshal) c.send.state)
      → Quiet marshal c (close c invalid_payload reason true)
  unfolding close close_at
  told_close c reason h = elim (Option-cases c.closing) [
    | inl still ↦ rw still (record {
      later = record { kept = λ b m. m; closes = inr (refl, (refl, h still)) };
      held = refl;
      silent = tt;
    })
    | inr (was, e) ↦
        rw e (record { later = same_later marshal _ _ refl refl; held = refl; silent = tt })
  ]

  told_queued :
      (c : ClientConn)
      → (queued c (push_other c.send (told marshal))).0.closing ≡ none
      → Member (told marshal) (queued c (push_other c.send (told marshal))).0.send.state
  unfolding queued push_other poke
  told_queued c h = elim (Bool-cases (leb send_buffer (length c.send.state))) [
    | inl full ↦ absurd (full_close marshal c _ _ (rw full at h))
    | inr room ↦ rw room (member_last (told marshal) c.send.state)
  ]

  pub malformed_quiet :
      (c : ClientConn)
      → Quiet marshal c
          (handle marshal marshal_key marshal_layout dispatch delivered surface c malformed)
  unfolding handle enqueue
  malformed_quiet c =
      then_quiet c _ (λ d. close d invalid_payload (bytes "malformed frame") true)
        (queued_quiet marshal c (told marshal))
        (told_close (queued c (push_other c.send (told marshal))).0 _ (told_queued c))
