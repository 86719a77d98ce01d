-- ===== src/Api/Hub/Linked.antt =====
-- The store, the hub, one connection and its client, over any interleaving of updates, requests for a
-- snapshot, the critical sections of subscription changes, other frames and reads. The dispatcher and
-- the satellite are parameters that no step here uses; a frame's bytes are read back by `read`.
use cuebooth.Prelude.{
  ℕ, ◌≡◌, refl, sym, ap, subst, either, if◌then◌else◌, ◌∙◌, Bool, true, false, Option, none, some,
  List, ◌∷◌, Bytes,
}
use cuebooth.State.{State, normalize, topics}
use cuebooth.State.Json.{Json, Object, IsCleanObject}
use cuebooth.State.Json.Same.{Same}
use cuebooth.State.AppState.{AppState, reset}
use cuebooth.State.Store.{Store, Result, snapshot, update}
use cuebooth.State.Store.Mirror.{Mirrors}
use cuebooth.State.Store.Gaps.{snapshot-Mirrors}
use cuebooth.State.Store.Updates.{Covers, IsValid}
use cuebooth.Api.Dispatch.{CmdFrame, Reply}
use cuebooth.Api.SendQueue.{SendQueue, push_other, pop, pop_lanes}
use cuebooth.Api.Surface.{SurfaceManager, SurfaceKeyFrame, SurfaceLayoutFrame}
use cuebooth.Api.Connection.{
  ClientConn, Frame, ack, pong, nak_frame, error_frame, event_frame, state_frame, new_client_conn,
  queued, enqueue, send_snapshot, set_topics, join_hub,
}
use cuebooth.Api.Hub.{send_deltas, broadcast_to}
use cuebooth.Api.Hub.Held.{IsHeld, Mirrors-IsHeld, update-IsValid, update-IsHeld}
use cuebooth.Api.Hub.Synced.{
  Message, state_message, delta_message, queued-topics, queued-hub, send_deltas-hub, apply_message,
  receive_frames, one_more, deltas_received, send_deltas-topics,
}

-- Where the reader stands: at a frame boundary; in handleSubscription, out of the hub, before the new
-- topics and with them.
pub data Reading : Type 0 where
  at_frame left retopiced : Reading

pub record Link : Type 0 where
  pub reading : Reading
  pub store : Store
  pub conn : ClientConn
  pub app : AppState

module _ (to_map : State → Option Object) (deep_equal : Json → Json → Bool)
    (read : Bytes → Option Message) (marshal_state marshal_delta : ℕ → Object → Bytes)
    (marshal : Frame → Bytes) where
  -- mustMarshal, where a `state` frame holds what the store gives.
  abbrev pub frame_bytes : Store → Frame → Bytes
  frame_bytes s (state_frame ts) = let (rev, fields) = snapshot s ts in marshal_state rev fields
  frame_bytes s (ack id) = marshal (ack id)
  frame_bytes s (pong id) = marshal (pong id)
  frame_bytes s (nak_frame id code) = marshal (nak_frame id code)
  frame_bytes s (error_frame code) = marshal (error_frame code)
  frame_bytes s (event_frame text) = marshal (event_frame text)

  module _ {Raw : Type 0} (marshal_key : SurfaceKeyFrame → Bytes)
      (marshal_layout : SurfaceLayoutFrame → Bytes) (dispatch : CmdFrame Raw → Reply)
      (delivered : ℕ → Bool → Bool) (surface : Option SurfaceManager) where
    unfoldable pub snapshot_sent : Store → ClientConn → ClientConn
    snapshot_sent s c =
        (send_snapshot (frame_bytes s) marshal_key marshal_layout dispatch delivered surface c).0

    unfoldable pub connected_conn : Store → Bytes → ClientConn
    connected_conn s hello =
        (join_hub marshal marshal_key marshal_layout dispatch delivered surface
          (snapshot_sent s (queued new_client_conn (push_other new_client_conn.send hello)).0)).0

    pub data Reach : Link → Type 0 where
      -- run: the hello, and the snapshot with which the connection joins the hub.
      connected :
          (s : Store) (hello : Bytes)
          → IsValid topics s
          → Reach
              (record { reading = at_frame; store = s; conn = connected_conn s hello; app = reset })
      -- Update, and the observer's broadcast.
      updated :
          {l : Link} (mutate : State → State)
          → Reach l
          → Reach (record l {
            store = (update to_map deep_equal l.store mutate).0;
            conn = broadcast_to marshal_delta l.conn (update to_map deep_equal l.store mutate).2;
          })
      -- The client's get_state.
      asked :
          {l : Link}
          → Reach l
          → l.reading ≡ at_frame
          → Reach (record l { conn = snapshot_sent l.store l.conn })
      -- A subscription change: out of the hub; the new topics; a snapshot, and in again under the
      -- store's lock. Anything may come between.
      leaving :
          {l : Link}
          → Reach l
          → l.reading ≡ at_frame
          → Reach (record l { reading = left; conn = record l.conn { in_hub = false } })
      changing :
          {l : Link} (subscribed : Bool) (ts : List Bytes)
          → Reach l
          → l.reading ≡ left
          → Reach (record l {
            reading = retopiced;
            conn = record l.conn { topics = set_topics subscribed ts l.conn.topics };
          })
      rejoining :
          {l : Link}
          → Reach l
          → l.reading ≡ retopiced
          → Reach (record l {
            reading = at_frame;
            conn =
                (join_hub marshal marshal_key marshal_layout dispatch delivered surface
                  (snapshot_sent l.store l.conn)).0;
          })
      -- Any frame that is no state.
      answered :
          {l : Link} (payload : Bytes)
          → Reach l
          → read payload ≡ none
          → Reach (record l { conn = (queued l.conn (push_other l.conn.send payload)).0 })
      -- What the surface's lane and the rest of the connection do.
      surface_moved :
          {l : Link} (q : SendQueue)
          → Reach l
          → q.state ≡ l.conn.send.state
          → Reach (record l { conn = record l.conn { send = q } })
      -- The writer takes a frame, and the client reads it.
      taken :
          {l : Link} (payload : Bytes) (rest : List Bytes)
          → Reach l
          → l.conn.send.state ≡ payload ∷ rest
          → Reach (record l {
            conn = record l.conn { send = (pop l.conn.send).0 };
            app = apply_message read l.app (read payload);
          })

    pub record IsSynced (l : Link) : Type 0 where
      pub valid : IsValid topics l.store
      pub joined : l.reading ≡ at_frame → l.conn.in_hub ≡ true
      pub held :
          l.conn.closing ≡ none
          → l.reading ≡ at_frame
          → IsHeld l.conn.topics l.store (receive_frames read l.app l.conn.send.state)

    module _ (deep_equal-Same : (v w : Json) → deep_equal v w ≡ true → Same v w)
        (to_map-IsCleanObject : (st : State) (o : Object)
          → to_map (normalize st) ≡ some o
          → IsCleanObject o)
        (to_map-Covers : (st : State) (o : Object) → to_map st ≡ some o → Covers topics o)
        (read-marshal_state : (rev : ℕ) (o : Object)
          → read (marshal_state rev o) ≡ some (state_message rev o))
        (read-marshal_delta : (rev : ℕ) (p : Object)
          → read (marshal_delta rev p) ≡ some (delta_message rev p)) where
      snapshot_sent-topics : (s : Store) (c : ClientConn) → (snapshot_sent s c).topics ≡ c.topics
      unfolding snapshot_sent send_snapshot enqueue
      snapshot_sent-topics s c =
          queued-topics c (marshal_state (snapshot s c.topics).0 (snapshot s c.topics).1)

      snapshot_sent-hub : (s : Store) (c : ClientConn) → (snapshot_sent s c).in_hub ≡ c.in_hub
      unfolding snapshot_sent send_snapshot enqueue
      snapshot_sent-hub s c =
          queued-hub c (marshal_state (snapshot s c.topics).0 (snapshot s c.topics).1)

      broadcast-hub :
          (c : ClientConn) (results : List Result)
          → (broadcast_to marshal_delta c results).in_hub ≡ c.in_hub
      unfolding broadcast_to
      broadcast-hub c results =
          either (λ (d : ClientConn). d.in_hub ≡ c.in_hub) c.in_hub
            (send_deltas-hub read marshal_delta read-marshal_delta c results) refl

      broadcast_there :
          (c : ClientConn) (results : List Result)
          → c.in_hub ≡ true
          → send_deltas marshal_delta c results ≡ broadcast_to marshal_delta c results
      unfolding broadcast_to
      broadcast_there c results there =
          sym (ap (λ b. if b then send_deltas marshal_delta c results else c) there)

      -- A snapshot in the queue: the client will hold what the store does.
      sent-Mirrors :
          (s : Store) (c : ClientConn) (a : AppState)
          → (snapshot_sent s c).closing ≡ none
          → Mirrors c.topics s (receive_frames read a (snapshot_sent s c).send.state)
      unfolding snapshot_sent send_snapshot enqueue
      sent-Mirrors s c a up =
          let payload = marshal_state (snapshot s c.topics).0 (snapshot s c.topics).1 in
          let (before, now) = one_more read c a payload up in
          rw (now, read-marshal_state)
            (snapshot-Mirrors c.topics s (receive_frames read a c.send.state))

      sent-IsHeld :
          (s : Store) (c : ClientConn) (a : AppState)
          → (snapshot_sent s c).closing ≡ none
          → IsHeld
              (snapshot_sent s c).topics
              s
              (receive_frames read a (snapshot_sent s c).send.state)
      sent-IsHeld s c a up = rw (snapshot_sent-topics s c) (
          Mirrors-IsHeld c.topics s (receive_frames read a (snapshot_sent s c).send.state)
            (sent-Mirrors s c a up))

      -- An update, to a connection that is in the hub.
      deltas-IsHeld :
          (l : Link) (mutate : State → State)
          → IsValid topics l.store
          → (l.conn.closing ≡ none
              → IsHeld l.conn.topics l.store (receive_frames read l.app l.conn.send.state))
          → let (s', res, results) = update to_map deep_equal l.store mutate in
            let c = send_deltas marshal_delta l.conn results in
            c.closing ≡ none → IsHeld c.topics s' (receive_frames read l.app c.send.state)
      deltas-IsHeld l mutate valid held up =
          let results = (update to_map deep_equal l.store mutate).2 in
          let same = send_deltas-topics read marshal_delta read-marshal_delta l.conn results in
          let (before, now) =
            deltas_received read marshal_delta read-marshal_delta l.conn l.app results up in
          rw (same, now)
            (update-IsHeld to_map deep_equal deep_equal-Same to_map-IsCleanObject to_map-Covers
              l.conn.topics l.store mutate (receive_frames read l.app l.conn.send.state) valid
              (held before))

      -- As long as the connection is not closed and the reader is not within a subscription change, the
      -- connection is in the hub, and what the client holds once it has read the frames in flight
      -- mirrors the store, as far as its topics go and at the store's revision, or else is at an
      -- earlier revision than the store; a client that follows every topic mirrors it. This holds
      -- however updates, snapshots that the client asks for, the three critical sections of each
      -- change of its topics, other frames and reads interleave after the connection joined the hub.
      -- The store's state came from toMap, whose result has no null field, no key twice and no key
      -- but the topics; DeepEqual holds of equal values only; a state frame and a delta frame are
      -- read back as they were sent.
      pub Reach-IsSynced : (l : Link) → Reach l → IsSynced l
      unfolding connected_conn join_hub pop pop_lanes
      Reach-IsSynced _ (connected s hello v) =
          let c = (queued new_client_conn (push_other new_client_conn.send hello)).0 in
          record { valid = v; joined = λ at. refl; held = λ up at. sent-IsHeld s c reset up }
      Reach-IsSynced _ (updated {l = l} mutate m) =
          let ih = Reach-IsSynced l m in
          let results = (update to_map deep_equal l.store mutate).2 in
          record {
            valid =
                update-IsValid to_map deep_equal deep_equal-Same to_map-IsCleanObject to_map-Covers
                  l.store mutate ih.valid;
            joined = λ at. broadcast-hub l.conn results ∙ ih.joined at;
            held = λ up at.
                subst
                  (λ (c : ClientConn).
                    c.closing ≡ none
                    → IsHeld c.topics (update to_map deep_equal l.store mutate).0
                        (receive_frames read l.app c.send.state))
                  (broadcast_there l.conn results (ih.joined at))
                  (deltas-IsHeld l mutate ih.valid (λ still. ih.held still at)) up;
          }
      Reach-IsSynced _ (asked {l = l} m e) =
          let ih = Reach-IsSynced l m in
          record {
            valid = ih.valid;
            joined = λ at. snapshot_sent-hub l.store l.conn ∙ ih.joined at;
            held = λ up at. sent-IsHeld l.store l.conn l.app up;
          }
      Reach-IsSynced _ (leaving {l = l} m e) = record {
        valid = (Reach-IsSynced l m).valid;
        joined = λ at. cc;
        held = λ up at. cc;
      }
      Reach-IsSynced _ (changing {l = l} subscribed ts m e) = record {
        valid = (Reach-IsSynced l m).valid;
        joined = λ at. cc;
        held = λ up at. cc;
      }
      Reach-IsSynced _ (rejoining {l = l} m e) = record {
        valid = (Reach-IsSynced l m).valid;
        joined = λ at. refl;
        held = λ up at. sent-IsHeld l.store l.conn l.app up;
      }
      Reach-IsSynced _ (answered {l = l} payload m e) =
          let ih = Reach-IsSynced l m in
          record {
            valid = ih.valid;
            joined = λ at. queued-hub l.conn payload ∙ ih.joined at;
            held = λ up at.
                let (before, now) = one_more read l.conn l.app payload up in
                rw (queued-topics l.conn payload, now, e) (ih.held before at);
          }
      Reach-IsSynced _ (surface_moved {l = l} q m e) =
          let ih = Reach-IsSynced l m in
          record { valid = ih.valid; joined = ih.joined; held = λ up at. rw e (ih.held up at) }
      Reach-IsSynced _ (taken {l = l} payload rest m e) =
          let ih = Reach-IsSynced l m in
          record {
            valid = ih.valid;
            joined = ih.joined;
            held = λ up at. rw e (rw e at (ih.held up at));
          }
