-- ===== src/Api/Connection/Run.antt =====
-- client.go: run, with the goroutines of one connection, step by step: the reader, which is run's own
-- goroutine, the writer, the pinger, the watch on the server's context, and the broadcasts of the hub.
-- Whether a write, a ping or a read succeeds is open. The surface's grid keeps its size `grid` while
-- the connection lives; the manager's cache, the dispatcher and Companion's answers may change.
pub mod Writes
pub mod Traces
pub mod Told
pub mod Tracked
pub mod Latches
pub mod Released
use cuebooth.Prelude.{
  ℕ, ◌≡◌, Bool, true, false, Option, none, some, List, [], ◌∷◌, ◌++◌, if◌then◌else◌, Bytes,
}
use cuebooth.Bytes.{bytes}
use cuebooth.Api.Dispatch.{CmdFrame, Reply}
use cuebooth.Api.SendQueue.{push_other, push_surface_key, push_surface_layout, pop}
use cuebooth.Api.Surface.{SurfaceManager, SurfaceLayoutFrame, SurfaceKeyFrame, key_count}
use cuebooth.Api.Connection.{
  ClientConn, Frame, Inbound, Effect, StatusCode, normal_closure, going_away, abnormal_closure,
  close, queued, new_client_conn, send_snapshot, replay_surface, handle, release_held_surface_keys,
}
use cuebooth.Api.Connection.Later.{calls_onto}

-- Where run stands: the surface is to be replayed; the read loop; after it; waiting for the other
-- loops; the socket is closed; the held keys are released; the connection has left the hub.
pub data Stage : Type 0 where
  joining reading returned waiting closed released gone : Stage

pub data Writer : Type 0 where
  writing flushing stopped : Writer

-- How run ended the connection: with a close handshake, or without one.
pub data Socket : Type 0 where
  connected : Socket
  handshake : StatusCode → Bytes → Socket
  dropped : Socket

-- `calls` are the calls of the satellite's Press and `written` the frames on the socket, both the
-- newest first; `failed` says that a write has failed.
pub record Live : Type 0 where
  pub conn : ClientConn
  pub calls : List (ℕ × Bool)
  pub written : List Bytes
  pub stage : Stage
  pub writer : Writer
  pub pings : Bool
  pub failed : Bool
  pub socket : Socket

abbrev pub OfGrid : ℕ → Option SurfaceManager → Type 0
OfGrid grid none = grid ≡ 0
OfGrid grid (some m) = key_count m ≡ grid

-- After a frame the read loop goes on unless the connection is closing.
abbrev pub stage_after : Option (StatusCode × Bytes × Bool) → Stage
stage_after none = reading
stage_after (some first) = returned

-- The end of the socket, as closeInfo says.
abbrev pub close_socket : Option (StatusCode × Bytes × Bool) → Socket
close_socket none = dropped
close_socket (some (code, reason, true)) = handshake code reason
close_socket (some (code, reason, false)) = dropped

-- What a part of the connection does to it.
abbrev pub acted : Live → ClientConn × List Effect → Live
acted l (c, effects) = record l { conn = c; calls = calls_onto l.calls effects }

abbrev pub request : Live → StatusCode → Bytes → Bool → Live
request l code reason graceful = acted l (close l.conn code reason graceful)

-- writeFrame
abbrev pub write_frame : Live → Bytes → Bool → Live
write_frame l payload true = record l { written = payload ∷ l.written }
write_frame l payload false = record (request l abnormal_closure (bytes "write failed") false) {
  writer = stopped;
  failed = true;
}

-- The hello and the snapshot, with which the connection joins the hub.
abbrev pub hello_queued : Bytes → ClientConn
hello_queued hello = (queued new_client_conn (push_other new_client_conn.send hello)).0

abbrev pub opened : ClientConn → Live
opened c = record {
  conn = record c { in_hub = true };
  calls = [];
  written = [];
  stage = joining;
  writer = writing;
  pings = true;
  failed = false;
  socket = connected;
}

module _ (Raw : Type 0) (marshal : Frame → Bytes) (marshal_key : SurfaceKeyFrame → Bytes)
    (marshal_layout : SurfaceLayoutFrame → Bytes) (grid : ℕ) where
  pub data Step : Live → Live → Type 0 where
    replay :
        (l : Live) (dispatch : CmdFrame Raw → Reply) (delivered : ℕ → Bool → Bool)
        (surface : Option SurfaceManager)
        → l.stage ≡ joining
        → OfGrid grid surface
        → Step l (record l {
          conn =
              replay_surface marshal marshal_key marshal_layout dispatch delivered surface surface
                l.conn;
          stage = reading;
        })
    -- readLoop: a frame is handled, and the loop goes on unless the connection is closing.
    read :
        (l : Live) (dispatch : CmdFrame Raw → Reply) (delivered : ℕ → Bool → Bool)
        (surface : Option SurfaceManager) (f : Inbound Raw)
        → l.stage ≡ reading
        → OfGrid grid surface
        → Step l
            (record (acted l
              (handle marshal marshal_key marshal_layout dispatch delivered surface l.conn f)) {
                stage =
                    stage_after
                      (handle marshal marshal_key marshal_layout dispatch delivered surface l.conn
                        f).0.closing;
              })
    stop_reading : (l : Live) → l.stage ≡ reading → Step l (record l { stage = returned })
    finish :
        (l : Live)
        → l.stage ≡ returned
        → Step l (record (request l normal_closure (bytes "connection closed") false) {
          stage = waiting;
        })
    shut :
        (l : Live)
        → l.stage ≡ waiting
        → l.writer ≡ stopped
        → l.pings ≡ false
        → Step l (record l { socket = close_socket l.conn.closing; stage = closed })
    release :
        (l : Live) (dispatch : CmdFrame Raw → Reply) (delivered : ℕ → Bool → Bool)
        (surface : Option SurfaceManager)
        → l.stage ≡ closed
        → OfGrid grid surface
        → Step l
            (record (acted l (
              release_held_surface_keys marshal marshal_key marshal_layout dispatch delivered
                surface l.conn)) { stage = released })
    leave :
        (l : Live)
        → l.stage ≡ released
        → Step l (record l { conn = record l.conn { in_hub = false }; stage = gone })
    -- writeLoop and flushRemaining.
    write :
        (l : Live) (payload : Bytes) (succeeds : Bool)
        → ¬ (l.writer ≡ stopped)
        → (pop l.conn.send).1 ≡ some payload
        → Step l (
            write_frame
              (record l { conn = record l.conn { send = (pop l.conn.send).0 } })
              payload
              succeeds)
    flush :
        (l : Live) (first : StatusCode × Bytes × Bool)
        → l.writer ≡ writing
        → l.conn.closing ≡ some first
        → Step l (record l { writer = flushing })
    stop_writing :
        (l : Live)
        → l.writer ≡ flushing
        → (pop l.conn.send).1 ≡ none
        → Step l (record l { writer = stopped })
    -- pingLoop
    lose :
        (l : Live)
        → l.pings ≡ true
        → Step l (record (request l going_away (bytes "keepalive failed") false) { pings = false })
    stop_pinging :
        (l : Live) (first : StatusCode × Bytes × Bool)
        → l.conn.closing ≡ some first
        → Step l (record l { pings = false })
    -- The server's end, by the context or by closeAll.
    shut_down : (l : Live) (reason : Bytes) → Step l (request l going_away reason false)
    -- The hub's broadcasts.
    broadcast :
        (l : Live) (payload : Bytes)
        → l.conn.in_hub ≡ true
        → Step l (acted l (queued l.conn (push_other l.conn.send payload)))
    broadcast_key :
        (l : Live) (key seq : ℕ) (payload : Bytes)
        → l.conn.in_hub ≡ true
        → Step l (record l {
          conn = record l.conn { send = push_surface_key l.conn.send key seq payload };
        })
    broadcast_layout :
        (l : Live) (seq : ℕ) (payload : Bytes)
        → l.conn.in_hub ≡ true
        → Step l (record l {
          conn = record l.conn { send = push_surface_layout l.conn.send seq payload };
        })

  pub data Reach : Live → Type 0 where
    start :
        (hello : Bytes) (dispatch : CmdFrame Raw → Reply) (delivered : ℕ → Bool → Bool)
        (surface : Option SurfaceManager)
        → Reach (
            opened
              (send_snapshot marshal marshal_key marshal_layout dispatch delivered surface
                (hello_queued hello)).0)
    later : {k l : Live} → Reach k → Step k l → Reach l
