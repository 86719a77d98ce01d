-- ===== src/Api/Surface.antt =====
-- server/internal/api/surface.go: the cache of the Companion surface, and what it broadcasts. The
-- dimensions are the satellite's, which are positive. `mustMarshal` is a parameter of the queues'
-- users; here a frame is its fields.
pub mod Cache
pub mod Shown
pub mod Across
pub mod Follows
pub mod Delivered
use cuebooth.Prelude.{
  ℕ, zero, suc, ◌+◌, ◌*◌, ◌/◌, ◌%◌, Bool, true, false, Option, none, some, List, [], ◌∷◌, ◌++◌, ltb,
  ◌==◌, if◌then◌else◌, Bytes, ℤ, pos, negsuc,
}
use cuebooth.Companion.Satellite.{SatelliteKey}

pub record SurfaceLayoutFrame : Type 0 where
  pub rows : ℕ
  pub cols : ℕ
  pub seq : ℕ
  pub bitmap_size : ℕ

pub record SurfaceKeyFrame : Type 0 where
  pub key : ℕ
  pub seq : ℕ
  pub row : ℕ
  pub col : ℕ
  pub key_type : Bytes
  pub pressed : Bool
  pub color : Bytes
  pub bitmap : Bytes

pub record SurfaceManager : Type 0 where
  pub rows : ℕ
  pub cols : ℕ
  pub bitmap_size : ℕ
  pub seq : ℕ
  pub keys : List SurfaceKeyFrame

-- What is sent to the clients.
pub data Sent : Type 0 where
  layout_sent : SurfaceLayoutFrame → Sent
  key_sent : SurfaceKeyFrame → Sent

-- newSurfaceManager, from `sat.Layout()`.
pub new_surface_manager : ℕ → ℕ → ℕ → SurfaceManager
new_surface_manager rows cols bitmap_size = record {
  rows = rows;
  cols = cols;
  bitmap_size = bitmap_size;
  seq = 0;
  keys = [];
}

abbrev pub layout_of : SurfaceManager → SurfaceLayoutFrame
layout_of m = record { rows = m.rows; cols = m.cols; seq = m.seq; bitmap_size = m.bitmap_size }

pub on_layout : SurfaceManager → ℕ → ℕ → ℕ → SurfaceManager × List Sent
on_layout m rows cols bitmap_size =
    let m' = record m { rows = rows; cols = cols; bitmap_size = bitmap_size; keys = [] } in
    (m', layout_sent (layout_of m') ∷ [])

abbrev pub key_count : SurfaceManager → ℕ
key_count m = m.rows * m.cols

-- inBounds, with the key as a natural number.
unfoldable pub in_bounds : SurfaceManager → ℤ → Option ℕ
in_bounds m (negsuc n) = none
in_bounds m (pos n) = if ltb n (key_count m) then some n else none

-- `m.keys[f.Key] = f`
unfoldable pub set_frame : SurfaceKeyFrame → List SurfaceKeyFrame → List SurfaceKeyFrame
set_frame f [] = f ∷ []
set_frame f (g ∷ gs) = if g.key == f.key then f ∷ gs else g ∷ set_frame f gs

-- The row and the column stay zero on a surface with no columns.
unfoldable pub frame_of : SurfaceManager → ℕ → ℕ → SatelliteKey → SurfaceKeyFrame
frame_of m seq key k = record {
  key = key;
  seq = seq;
  row = (if ltb 0 m.cols then key / m.cols else 0);
  col = (if ltb 0 m.cols then key % m.cols else 0);
  key_type = k.type;
  pressed = k.pressed;
  color = k.color;
  bitmap = k.bitmap;
}

unfoldable pub store_key : SurfaceManager → SatelliteKey → Option ℕ → SurfaceManager × List Sent
store_key m k none = (m, [])
store_key m k (some key) =
    let f = frame_of m (m.seq + 1) key k in
    (record m { seq = m.seq + 1; keys = set_frame f m.keys }, key_sent f ∷ [])

-- onKey up to its broadcast, with what it then broadcasts, the lock released; so for the other two.
unfoldable pub on_key : SurfaceManager → SatelliteKey → SurfaceManager × List Sent
on_key m k = store_key m k (in_bounds m k.key)

unfoldable pub on_clear : SurfaceManager → SurfaceManager × List Sent
on_clear m = (record m { keys = [] }, layout_sent (layout_of m) ∷ [])

unfoldable pub replay : List SurfaceKeyFrame → List Sent
replay [] = []
replay (f ∷ fs) = key_sent f ∷ replay fs

-- What sendInitial queues on one connection.
unfoldable pub send_initial : SurfaceManager → List Sent
send_initial m = layout_sent (layout_of m) ∷ replay m.keys

-- press: the satellite's Press is an argument; without a call of it there is no error.
unfoldable pub press : SurfaceManager → (ℕ → Bool → Bool) → ℕ → Bool → Bool × List (ℕ × Bool)
press m delivered key pressed =
    if ltb key (key_count m) then (delivered key pressed, (key, pressed) ∷ []) else (true, [])

-- The manager and one connection. `pending` is what the callbacks' goroutine has stored and not
-- broadcast yet; `member` says that the connection is in the hub, and `fresh` that it has been sent a
-- replay since it joined.
pub record Scene : Type 0 where
  pub manager : SurfaceManager
  pub pending : Option Sent
  pub member : Bool
  pub fresh : Bool

-- A callback of the satellite up to its broadcast; the broadcast; the connection joins the hub and
-- leaves it; a replay to the connection, within which a pending broadcast may come behind so many of
-- its frames. The replay holds the lock, so no callback can store anything within it.
pub data Event : Type 0 where
  key_event : SatelliteKey → Event
  layout_event : ℕ → ℕ → ℕ → Event
  clear_event broadcast_event entered departed sent_initial : Event
  sent_across : ℕ → Event

abbrev pub first_of : List Sent → Option Sent
first_of [] = none
first_of (x ∷ xs) = some x

abbrev pub listed : Option Sent → List Sent
listed none = []
listed (some x) = x ∷ []

-- One goroutine makes the callbacks: none comes before the last one's broadcast.
abbrev pub stored : Scene → Option Sent → SurfaceManager × List Sent → Scene
stored s none (m, sent) = record s { manager = m; pending = first_of sent }
stored s (some x) p = s

abbrev pub to_member : Bool → Option Sent → List Sent
to_member member o = if member then listed o else []

unfoldable pub insert_at : ℕ → List Sent → List Sent → List Sent
insert_at n ps [] = ps
insert_at zero ps (x ∷ xs) = ps ++ x ∷ xs
insert_at (suc n) ps (x ∷ xs) = x ∷ insert_at n ps xs

-- What the connection is sent.
unfoldable pub step : Scene → Event → Scene × List Sent
unfolding insert_at
step s (key_event k) = (stored s s.pending (on_key s.manager k), [])
step s (layout_event rows cols bitmap_size) =
    (stored s s.pending (on_layout s.manager rows cols bitmap_size), [])
step s clear_event = (stored s s.pending (on_clear s.manager), [])
step s broadcast_event = (record s { pending = none }, to_member s.member s.pending)
step s entered = (record s { member = true; fresh = false }, [])
step s departed = (record s { member = false; fresh = false }, [])
step s sent_initial = (record s { fresh = s.member }, send_initial s.manager)
step s (sent_across n) = (
  record s { pending = none; fresh = s.member },
  insert_at n (to_member s.member s.pending) (send_initial s.manager),
)

-- The scene after events, and what the connection was sent.
unfoldable pub serve : Scene → List Event → Scene × List Sent
serve s [] = (s, [])
serve s (e ∷ es) =
    let (s', sent) = step s e in let (last, later) = serve s' es in (last, sent ++ later)

-- A connection that has not joined, before the next callback.
abbrev pub apart : SurfaceManager → Scene
apart m = record { manager = m; pending = none; member = false; fresh = false }
