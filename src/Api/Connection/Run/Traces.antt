-- ===== src/Api/Connection/Run/Traces.antt =====
-- client.go: two runs of a connection, for the tests: one sends a malformed frame and is closed for it,
-- and one ends with a key held.
use cuebooth.Prelude.{
  ℕ, ◌≡◌, refl, Bool, true, false, some, none, Option, List, [], ◌∷◌, Bytes, pos,
}
use cuebooth.Bytes.{bytes}
use cuebooth.Api.Dispatch.{CmdFrame, Reply, done}
use cuebooth.Api.SendQueue.{
  SendQueue, new_send_queue, pop_surface, push_surface_layout, push_other, poke, pop, pop_lanes,
}
use cuebooth.Api.SendQueue.StateLane.{state-push_surface_layout}
use cuebooth.Api.Surface.{
  SurfaceManager, SurfaceLayoutFrame, SurfaceKeyFrame, in_bounds, press, send_initial, replay,
  layout_of,
}
use cuebooth.Api.Connection.{
  Frame, StatusCode, normal_closure, invalid_payload, malformed, surface_press, queued, enqueue,
  send_snapshot, new_client_conn, close, close_at, handle, replay_surface, enqueue_surface,
  handle_surface_press, press_on, press_at, after_press, presses_of, track_surface_hold,
  release_held_surface_keys, release_on, release_each, remove_key,
}
use cuebooth.Api.Connection.Run.{
  Live, Reach, joining, reading, returned, waiting, closed, writing, stopped, connected, dropped,
  start, later, read, stop_reading, finish, stop_pinging, write, flush, stop_writing, shut, release,
  handshake, released,
}
use cuebooth.Api.Connection.Run
use cuebooth.State

abbrev pub marshal : Frame → Bytes
marshal f = 101 ∷ []

abbrev pub marshal_key : SurfaceKeyFrame → Bytes
marshal_key f = []

abbrev pub marshal_layout : SurfaceLayoutFrame → Bytes
marshal_layout f = []

abbrev pub dispatch : CmdFrame ℕ → Reply
dispatch f = done none

abbrev pub delivered : ℕ → Bool → Bool
delivered key down = true

abbrev pub ComesTo : ℕ → Live → Type 0
ComesTo grid l = Reach ℕ marshal marshal_key marshal_layout grid l

abbrev queue : List Bytes → SendQueue
queue frames = record {
  state = frames;
  surface = [];
  keys = λ k. none;
  layout = none;
  next_id = 0;
  wake = true;
}

-- A connection in the hub with every topic and these frames queued.
abbrev live : List Bytes → List ℕ → List (ℕ × Bool) → Live
live frames held calls = record {
  conn = record {
    send = queue frames;
    topics = State.topics;
    closing = none;
    held_surface_keys = held;
    in_hub = true;
  };
  calls = calls;
  written = [];
  stage = reading;
  writer = writing;
  pings = true;
  failed = false;
  socket = connected;
}

abbrev closing_as : StatusCode → Bytes → Bool → Live → Live
closing_as code reason graceful l = record l {
  conn = record l.conn { closing = some (code, reason, graceful) };
}

abbrev greeting : List Bytes
greeting = bytes "h" ∷ (101 ∷ []) ∷ []

joined :
    (grid : ℕ) (surface : Option SurfaceManager)
    → ComesTo grid (record (live greeting [] []) { stage = joining })
unfolding send_snapshot new_client_conn queued push_other poke enqueue new_send_queue
joined grid surface = start (bytes "h") dispatch delivered surface

greeted : ComesTo 0 (live greeting [] [])
unfolding replay_surface
greeted = later (joined 0 none) (Run.replay _ dispatch delivered none refl refl)

abbrev told_live : Live
told_live =
    closing_as invalid_payload (bytes "malformed frame") true
      (record (live (bytes "h" ∷ (101 ∷ []) ∷ (101 ∷ []) ∷ []) [] []) { stage = returned })

malformed_read : ComesTo 0 told_live
unfolding handle enqueue queued push_other poke close close_at
malformed_read = later greeted (read _ dispatch delivered none malformed refl refl)

abbrev stopping : Live
stopping = record told_live { stage = waiting; pings = false }

stopping_reached : ComesTo 0 stopping
unfolding close close_at
stopping_reached = later (later malformed_read (finish _ refl)) (stop_pinging _ _ refl)

abbrev flushed : Live
flushed = record stopping {
  conn = record stopping.conn { send = queue [] };
  written = (101 ∷ []) ∷ (101 ∷ []) ∷ bytes "h" ∷ [];
}

flushed_reached : ComesTo 0 flushed
unfolding pop pop_lanes
flushed_reached =
    later
      (later (later stopping_reached (write _ (bytes "h") true (λ e. cc) refl))
        (write _ (101 ∷ []) true (λ e. cc) refl))
      (write _ (101 ∷ []) true (λ e. cc) refl)

abbrev pub told_end : Live
told_end = record flushed {
  stage = closed;
  writer = stopped;
  socket = handshake invalid_payload (bytes "malformed frame");
}

pub told_end_reached : ComesTo 0 told_end
unfolding pop pop_lanes pop_surface
told_end_reached =
    later (later (later flushed_reached (flush _ _ refl refl)) (stop_writing _ refl refl))
      (shut _ refl refl refl)

abbrev pub small_surface : SurfaceManager
small_surface = record { rows = 1; cols = 2; bitmap_size = 72; seq = 0; keys = [] }

-- A surface without a cached key, of two keys.
abbrev layout_queued : SendQueue → SendQueue
layout_queued q = push_surface_layout q 0 []

held_greeted : ComesTo 2 (record (live greeting [] []) {
  conn = record (live greeting [] []).conn { send = layout_queued (queue greeting) };
})
unfolding replay_surface send_initial replay layout_of enqueue_surface
held_greeted =
    later (joined 2 (some small_surface))
      (Run.replay _ dispatch delivered (some small_surface) refl refl)

abbrev held_live : Live
held_live = record (live greeting (1 ∷ []) ((1, true) ∷ [])) {
  conn = record (live greeting (1 ∷ []) []).conn { send = layout_queued (queue greeting) };
}

held_read : ComesTo 2 held_live
unfolding handle handle_surface_press press_on press_at in_bounds press after_press presses_of
    track_surface_hold remove_key
held_read = later held_greeted (
    read _ dispatch delivered (some small_surface) (surface_press (some (some (pos 1), some true)))
      refl refl)

abbrev pub held_end : Live
held_end = record held_live {
  conn = record held_live.conn {
    send = (pop (layout_queued (queue greeting))).0;
    held_surface_keys = [];
    closing = some (normal_closure, bytes "connection closed", false);
  };
  calls = (1, false) ∷ (1, true) ∷ [];
  stage = released;
  writer = stopped;
  pings = false;
  failed = true;
  socket = dropped;
}

first_popped :
    (q : SendQueue) (payload : Bytes) (rest : List Bytes)
    → q.state ≡ payload ∷ rest
    → (pop q).1 ≡ some payload
unfolding pop pop_lanes
first_popped q payload rest h = rw h refl

pub held_end_reached : ComesTo 2 held_end
unfolding close close_at release_held_surface_keys release_on release_each presses_of press
held_end_reached =
    let ended =
      later (later (later held_read (stop_reading _ refl)) (finish _ refl))
        (stop_pinging _ _ refl) in
    let failed_write = later ended (
      write _ (bytes "h") false (λ e. cc)
        (first_popped (layout_queued (queue greeting)) (bytes "h") ((101 ∷ []) ∷ [])
          (state-push_surface_layout (queue greeting) 0 []))) in
    later (later failed_write (shut _ refl refl refl))
      (release _ dispatch delivered (some small_surface) refl refl)
