-- ===== src/Api/Connection.antt =====
-- server/internal/api/client.go: one connection, and what a frame of the client makes of it. The
-- frames are what encoding/json reads of them; `mustMarshal`, the store's snapshot, the dispatcher
-- and the satellite's Press are arguments. The socket, the timers and the logger are left out.
pub mod Holds
pub mod Later
pub mod Quiet
pub mod Moves
pub mod Run
use cuebooth.Prelude.{
  ℕ, Bool, true, false, not, ◌||◌, Option, none, some, List, [], ◌∷◌, ◌++◌, ◌==◌, if◌then◌else◌,
  Bytes, ℤ,
}
use cuebooth.Bytes.{bytes, equal}
use cuebooth.Api.Dispatch.{Code, protocol, unknown_topic, CmdFrame, Reply, nak, done, is_one_of}
use cuebooth.Api.SendQueue.{
  SendQueue, new_send_queue, push_other, push_surface_key, push_surface_layout,
}
use cuebooth.Api.Surface.{
  SurfaceManager, Sent, layout_sent, key_sent, SurfaceLayoutFrame, SurfaceKeyFrame, in_bounds,
  press, send_initial,
}
use cuebooth.State.{State, topics}
use cuebooth.State

-- The close codes that the server gives.
pub data StatusCode : Type 0 where
  normal_closure going_away policy_violation abnormal_closure invalid_payload : StatusCode

-- `closing` holds the code, the reason and `graceful` once close was called.
pub record ClientConn : Type 0 where
  pub send : SendQueue
  pub topics : List Bytes
  pub closing : Option (StatusCode × Bytes × Bool)
  pub held_surface_keys : List ℕ
  pub in_hub : Bool

-- Frames other than the surface's.
pub data Frame : Type 0 where
  ack pong : Bytes → Frame
  nak_frame : Bytes → Code → Frame
  error_frame : Code → Frame
  event_frame : Bytes → Frame
  state_frame : List Bytes → Frame

-- What json.Unmarshal makes of a client's frame; a body is `none` where it does not fit its struct.
pub data Inbound (Raw : Type 0) : Type 0 where
  malformed : Inbound Raw
  cmd : Option (CmdFrame Raw) → Inbound Raw
  subscribe unsubscribe : Option (List Bytes) → Inbound Raw
  get_state : Inbound Raw
  surface_press : Option (Option ℤ × Option Bool) → Inbound Raw
  ping : Option Bytes → Inbound Raw
  unknown : Inbound Raw

-- What a handler does beyond the connection: a state mutator applied, a call of the satellite's
-- Press, or the socket's end.
pub data Effect : Type 0 where
  applied : (State → State) → Effect
  pressed : ℕ → Bool → Effect
  closed_now : Effect

unfoldable pub new_client_conn : ClientConn
new_client_conn = record {
  send = new_send_queue;
  topics = State.topics;
  closing = none;
  held_surface_keys = [];
  in_hub = false;
}

-- close: the first call wins.
unfoldable pub close_at :
    Option (StatusCode × Bytes × Bool)
    → ClientConn
    → StatusCode
    → Bytes
    → Bool
    → ClientConn × List Effect
close_at none c code reason graceful =
    (record c { closing = some (code, reason, graceful) }, if graceful then [] else closed_now ∷ [])
close_at (some first) c code reason graceful = (c, [])

unfoldable pub close : ClientConn → StatusCode → Bytes → Bool → ClientConn × List Effect
close c code reason graceful = close_at c.closing c code reason graceful

-- `m[key] = true` and `delete(m, key)` on a set of keys.
unfoldable pub remove_key : ℕ → List ℕ → List ℕ
remove_key key [] = []
remove_key key (k ∷ ks) = let rest = remove_key key ks in if k == key then rest else k ∷ rest

-- trackSurfaceHold
pub track_surface_hold : ClientConn → ℕ → Bool → ClientConn
track_surface_hold c key down =
    if down
    then record c { held_surface_keys = key ∷ remove_key key c.held_surface_keys }
    else record c { held_surface_keys = remove_key key c.held_surface_keys }

unfoldable pub remove_topic : Bytes → List Bytes → List Bytes
remove_topic t [] = []
remove_topic t (u ∷ us) = let rest = remove_topic t us in if equal u t then rest else u ∷ rest

pub set_topics : Bool → List Bytes → List Bytes → List Bytes
set_topics subscribed [] held = held
set_topics subscribed (t ∷ ts) held =
    set_topics subscribed ts (if subscribed then t ∷ remove_topic t held else remove_topic t held)

valid_topic : Bytes → Bool
valid_topic t = is_one_of t State.topics

all_valid : List Bytes → Bool
all_valid [] = true
all_valid (t ∷ ts) = if valid_topic t then all_valid ts else false

presses_of : List (ℕ × Bool) → List Effect
presses_of [] = []
presses_of ((key, down) ∷ calls) = pressed key down ∷ presses_of calls

-- What enqueue makes of pushOther's answer.
unfoldable pub queued : ClientConn → SendQueue × Bool → ClientConn × List Effect
queued c (q, true) = (record c { send = q }, [])
queued c (q, false) =
    close (record c { send = q }) policy_violation (bytes "client send buffer full") false

module _ {Raw : Type 0} (marshal : Frame → Bytes) (marshal_key : SurfaceKeyFrame → Bytes)
    (marshal_layout : SurfaceLayoutFrame → Bytes) (dispatch : CmdFrame Raw → Reply)
    (delivered : ℕ → Bool → Bool) (surface : Option SurfaceManager) where
  unfoldable pub enqueue : ClientConn → Frame → ClientConn × List Effect
  enqueue c f = queued c (push_other c.send (marshal f))

  -- One thing done after another.
  abbrev pub then_do :
      ClientConn × List Effect → (ClientConn → ClientConn × List Effect) → ClientConn × List Effect
  then_do (c, done_before) f = let (c', later) = f c in (c', done_before ++ later)

  pub enqueue_surface : ClientConn → List Sent → ClientConn
  enqueue_surface c [] = c
  enqueue_surface c (layout_sent l ∷ rest) =
      enqueue_surface (record c { send = push_surface_layout c.send l.seq (marshal_layout l) }) rest
  enqueue_surface c (key_sent f ∷ rest) =
      enqueue_surface (record c { send = push_surface_key c.send f.key f.seq (marshal_key f) }) rest

  pub replay_surface : Option SurfaceManager → ClientConn → ClientConn
  replay_surface none c = c
  replay_surface (some m) c = enqueue_surface c (send_initial m)

  after_dispatch : ClientConn → Bytes → Reply → ClientConn × List Effect
  after_dispatch c id (nak code) = enqueue c (nak_frame id code)
  after_dispatch c id (done none) = enqueue c (ack id)
  after_dispatch c id (done (some mutate)) =
      then_do (enqueue c (ack id)) (λ c'. (c', applied mutate ∷ []))

  pub handle_cmd : ClientConn → Option (CmdFrame Raw) → ClientConn × List Effect
  handle_cmd c none = enqueue c (error_frame protocol)
  handle_cmd c (some f) =
      if equal f.id [] || equal f.target []
      then enqueue c (error_frame protocol)
      else after_dispatch c f.id (dispatch f)

  -- What follows the satellite's answer to a press.
  after_press : ClientConn → ℕ → Bool → Bool × List (ℕ × Bool) → ClientConn × List Effect
  after_press c key down (sent, calls) =
      let effects = presses_of calls in
      if not sent
      then then_do (c, effects)
          (λ c'. enqueue c' (event_frame (bytes "Companion surface unavailable")))
      else if down
      then (c, effects)
      else (track_surface_hold c key false, effects)

  press_at : ClientConn → SurfaceManager → Bool → Option ℕ → ClientConn × List Effect
  press_at c m down none = (c, [])
  press_at c m down (some key) =
      after_press (if down then track_surface_hold c key true else c) key down
        (press m delivered key down)

  press_on :
      ClientConn
      → Option SurfaceManager
      → Option (Option ℤ × Option Bool)
      → ClientConn × List Effect
  press_on c none (some (some key, some down)) =
      enqueue c (event_frame (bytes "no Companion surface configured"))
  press_on c (some m) (some (some key, some down)) = press_at c m down (in_bounds m key)
  press_on c s _ = enqueue c (error_frame protocol)

  pub handle_surface_press : ClientConn → Option (Option ℤ × Option Bool) → ClientConn × List Effect
  handle_surface_press c f = press_on c surface f

  -- releaseHeldSurfaceKeys, with the calls of the satellite's Press.
  release_each : SurfaceManager → List ℕ → List Effect
  release_each m [] = []
  release_each m (key ∷ keys) = presses_of (press m delivered key false).1 ++ release_each m keys

  release_on : ClientConn → Option SurfaceManager → ClientConn × List Effect
  release_on c none = (c, [])
  release_on c (some m) = (record c { held_surface_keys = [] }, release_each m c.held_surface_keys)

  pub release_held_surface_keys : ClientConn → ClientConn × List Effect
  release_held_surface_keys c = release_on c surface

  -- sendSnapshot: the frame is scoped to the topics.
  unfoldable pub send_snapshot : ClientConn → ClientConn × List Effect
  send_snapshot c = enqueue c (state_frame c.topics)

  unfoldable pub join_hub : ClientConn → ClientConn × List Effect
  join_hub c = (record c { in_hub = true }, [])

  pub handle_subscription : ClientConn → Option (List Bytes) → Bool → ClientConn × List Effect
  handle_subscription c none subscribed = enqueue c (error_frame protocol)
  handle_subscription c (some ts) subscribed =
      if not (all_valid ts)
      then enqueue c (error_frame unknown_topic)
      else let changed = record c { in_hub = false; topics = set_topics subscribed ts c.topics } in
        then_do (then_do (send_snapshot changed) join_hub) (λ c'. (replay_surface surface c', []))

  pub handle_ping : ClientConn → Option Bytes → ClientConn × List Effect
  handle_ping c none = enqueue c (error_frame protocol)
  handle_ping c (some id) =
      if equal id [] then enqueue c (error_frame protocol) else enqueue c (pong id)

  pub handle : ClientConn → Inbound Raw → ClientConn × List Effect
  handle c malformed =
      then_do (enqueue c (error_frame protocol))
        (λ c'. close c' invalid_payload (bytes "malformed frame") true)
  handle c (cmd f) = handle_cmd c f
  handle c (subscribe f) = handle_subscription c f true
  handle c (unsubscribe f) = handle_subscription c f false
  handle c get_state = send_snapshot c
  handle c (surface_press f) = handle_surface_press c f
  handle c (ping f) = handle_ping c f
  handle c unknown = (c, [])
