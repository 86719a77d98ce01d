-- ===== src/Companion/Satellite.antt =====
-- server/internal/companion/satellite.go: one surface registered with Companion. The reader, the
-- writer, the keepalive and the callers of Press interleave: each critical section is one function,
-- and what it makes happen outside the mutex is a list of effects. The socket, the clock and the
-- logger are left out.
pub mod Lines
pub mod Registration
pub mod Session
pub mod Verdict
pub mod Life
pub mod Orderly
pub mod Stays
use cuebooth.Prelude.{
  ℕ, zero, suc, ◌+◌, ◌*◌, ◌≡◌, Bool, true, false, not, ◌&&◌, ◌||◌, Option, none, some, List, [],
  ◌∷◌, ◌++◌, leb, ◌==◌, if◌then◌else◌, Bytes, length, ℤ, pos, negsuc,
}
use cuebooth.Bytes.{equal, bytes, atoi, print, trim_right}
use cuebooth.Companion.Line.{
  Args, arg, arg_or_empty, parse_satellite_line, bool_wire, parse_wire_bool,
}
use cuebooth.Companion.Line.Quoting.{quote}

pub record Config : Type 0 where
  pub addr : Bytes
  pub device_id : Bytes
  pub product_name : Bytes
  pub rows : ℤ
  pub cols : ℤ
  pub bitmap_size : ℤ

-- A surface's dimensions once NewSatellite has put the defaults in.
pub record Surface : Type 0 where
  pub addr : Bytes
  pub device_id : Bytes
  pub product_name : Bytes
  pub rows : ℕ
  pub cols : ℕ
  pub bitmap_size : ℕ

abbrev pub or_default : Bytes → Bytes → Bytes
or_default [] d = d
or_default (c ∷ s) d = c ∷ s

abbrev pub positive_or : ℤ → ℕ → ℕ
positive_or (pos zero) d = d
positive_or (pos (suc n)) d = suc n
positive_or (negsuc n) d = d

unfoldable pub normalize : Config → Surface
normalize c = record {
  addr = or_default c.addr (bytes "localhost:16622");
  device_id = or_default c.device_id (bytes "cuebooth");
  product_name = or_default c.product_name (bytes "CueBooth");
  rows = positive_or c.rows 4;
  cols = positive_or c.cols 8;
  bitmap_size = positive_or c.bitmap_size 72;
}

abbrev pub keys_total : Surface → ℕ
keys_total s = s.rows * s.cols

abbrev pub keys_per_row : Surface → ℕ
keys_per_row s = s.cols

pub record SatelliteKey : Type 0 where
  pub key : ℤ
  pub type : Bytes
  pub pressed : Bool
  pub color : Bytes
  pub bitmap : Bytes

-- `out`, `conn` and `reg` are nil between sessions; `reg` is cleared by the first verdict. The
-- callbacks are there or not.
pub record Satellite : Type 0 where
  pub cfg : Surface
  pub out : Option (List Bytes)
  pub connected : Bool
  pub registered : Bool
  pub awaiting : Bool
  pub has_key : Bool
  pub has_layout : Bool
  pub has_clear : Bool

-- What a line makes happen: a callback, the verdict on the registration (with Companion's message
-- if it refused), or the end of the socket.
pub data Effect : Type 0 where
  key_state : SatelliteKey → Effect
  layout : ℕ → ℕ → ℕ → Effect
  clear : Effect
  verdict : Option Bytes → Effect
  close_conn : Effect

pub data Error : Type 0 where
  not_connected queue_full : Error

abbrev pub out_buffer : ℕ
out_buffer = 32

-- The non-blocking send under the mutex.
unfoldable pub enqueue_on : Satellite → Option (List Bytes) → Bytes → Satellite × Option Error
enqueue_on s none line = (s, some not_connected)
enqueue_on s (some lines) line =
    if leb out_buffer (length lines)
    then (s, some queue_full)
    else (record s { out = some (lines ++ line ∷ []) }, none)

unfoldable pub enqueue : Satellite → Bytes → Satellite × Option Error
enqueue s line = enqueue_on s s.out line

unfoldable pub set_session : Satellite → Satellite
set_session s = record s { connected = true; out = some []; awaiting = true }

-- The deferred teardown of a session.
pub end_session : Satellite → Satellite
end_session s = record s { out = none; awaiting = false; connected = false; registered = false }

-- The writer takes the oldest line.
pub take_line : Satellite → Option (List Bytes) → Satellite × Option Bytes
take_line s none = (s, none)
take_line s (some []) = (s, none)
take_line s (some (line ∷ rest)) = (record s { out = some rest }, some line)

pub write_next : Satellite → Satellite × Option Bytes
write_next s = take_line s s.out

abbrev pub is_ok : Option Bytes → Bool
is_ok none = true
is_ok (some message) = false

-- A verdict that nobody waits for ends the socket if it is a refusal.
unfoldable pub signal_registration : Satellite → Option Bytes → Satellite × List Effect
signal_registration s err = (
  record s { awaiting = false; registered = is_ok err },
  if s.awaiting
      then verdict err ∷ []
      else if not (is_ok err) && s.connected
      then close_conn ∷ []
      else [],
)

pub register_line : Surface → Bytes
register_line c =
    bytes "ADD-DEVICE DEVICEID="
    ++ (c.device_id
        ++ (bytes " PRODUCT_NAME="
            ++ (quote c.product_name
                ++ (bytes " KEYS_TOTAL="
                    ++ (print (keys_total c)
                        ++ (bytes " KEYS_PER_ROW="
                            ++ (print (keys_per_row c)
                                ++ (bytes " BITMAPS="
                                    ++ (print c.bitmap_size ++ bytes " COLORS=hex")))))))))

unfoldable pub register : Satellite → Satellite × Option Error
register s = enqueue s (register_line s.cfg)

pub press_line : Surface → ℕ → Bool → Bytes
press_line c key pressed =
    bytes "KEY-PRESS DEVICEID="
    ++ (c.device_id ++ (bytes " KEY=" ++ (print key ++ (bytes " PRESSED=" ++ bool_wire pressed))))

-- Press, from what its first critical section has read of `registered` on; the session may have ended
-- since.
pub press : Bool → Satellite → ℕ → Bool → Satellite × Option Error
press ready s key pressed =
    if ready then enqueue s (press_line s.cfg key pressed) else (s, some not_connected)

-- A full queue skips a tick, and any other failure ends the loop.
abbrev pub goes_on : Option Error → Bool
goes_on none = true
goes_on (some queue_full) = true
goes_on (some not_connected) = false

-- One tick of the keepalive; the Bool says whether the loop goes on.
pub ping_tick : Satellite → Satellite × Bool
ping_tick s = let (s', e) = enqueue s (bytes "PING cuebooth") in (s', goes_on e)
