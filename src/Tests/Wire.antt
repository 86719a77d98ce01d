-- ===== src/Tests/Wire.antt =====
-- Concrete inputs for the theorems on the surface's path: queue, cache, satellite, HTTP client.
use cuebooth.Prelude.{
  Option, ℕ, ◌+◌, ◌==◌, ◌≤◌, ◌≡◌, refl, true, false, none, some, List, [], ◌∷◌, Bytes, pos, arith,
  length, if◌then◌else◌, ◌⊎◌,
}
use cuebooth.Bytes.{bytes, print, trim_right}
use cuebooth.Companion.Line.{parse_satellite_line, arg}
use cuebooth.Companion.Line.Quoting.{all_plain_lem, all_printable_lem}
use cuebooth.Companion.Satellite
use cuebooth.Companion.Satellite.{
  Surface, SatelliteKey, register_line, keys_total, keys_per_row, set_session, end_session,
  register, enqueue, enqueue_on, press_line, press, signal_registration,
}
use cuebooth.Companion.Satellite.Lines.{read_line, handle_line, handle_command, handle_add_device}
use cuebooth.Companion.Satellite.Registration.{register_line-parsed}
use cuebooth.Companion.Satellite.Life
use cuebooth.Companion.Satellite.Orderly.{IsOrderly, Reach-IsOrderly}
use cuebooth.Companion.Satellite.Verdict.{Accepts, line_registers}
use cuebooth.Companion.Client.{Round, response, post, get, do_request}
use cuebooth.Companion.Client.Attempts.{
  IsRefused, AllButLast, length-do_request, post_never_doubled,
}
use cuebooth.Companion.Location.{Location, parse_location, to_string}
use cuebooth.Companion.Location
use cuebooth.Companion.Location.RoundTrip.{parse_location-to_string}
use cuebooth.Api.SendQueue.{new_send_queue}
use cuebooth.Api.SendQueue.Frames.{Call, other, key_update, re_layout, take}
use cuebooth.Api.SendQueue.Handles.Refinement.{Refines, perform-Refines, new_send_queue-IsValid}
use cuebooth.Api.Surface.{
  SurfaceManager, SurfaceKeyFrame, SurfaceLayoutFrame, Event, key_event, entered, sent_across,
}

abbrev manager : SurfaceManager
manager = record { rows = 2; cols = 2; bitmap_size = 72; seq = 0; keys = [] }

abbrev red : SatelliteKey
red = record {
  key = pos 1;
  type = bytes "BUTTON";
  pressed = false;
  color = bytes "red";
  bitmap = [];
}

abbrev key_bytes : SurfaceKeyFrame → Bytes
key_bytes f = f.color

abbrev layout_bytes : SurfaceLayoutFrame → Bytes
layout_bytes l = l.rows ∷ l.cols ∷ []

-- Every text is its own image.
abbrev picture_of : Bytes → Option Bytes
picture_of payload = some payload

abbrev surface_calls : List Call
surface_calls =
    re_layout 1 (2 ∷ 2 ∷ [])
    ∷ key_update 1 1 (bytes "red")
    ∷ take
    ∷ other (bytes "{}")
    ∷ key_update 1 1 (bytes "red")
    ∷ take
    ∷ []

-- A key is stored; the connection joins, and is sent the replay, in which the key's broadcast comes.
abbrev events : List Event
events = key_event red ∷ entered ∷ sent_across 1 ∷ []

perform-Refines_example : Refines new_send_queue (key_update 3 1 (bytes "render"))
perform-Refines_example =
    perform-Refines new_send_queue (key_update 3 1 (bytes "render")) new_send_queue-IsValid

abbrev busy : ℕ → Round
busy n = record {
  sleep_cancelled = false;
  outcome = response (if n == 0 then 503 else 200) (some []);
  done_after = false;
}

post_never_doubled_example : AllButLast IsRefused (do_request 2 post busy).0
post_never_doubled_example = post_never_doubled 2 busy

length-do_request_example : length (do_request 2 get busy).0 ≤ 2 + 1
length-do_request_example = length-do_request 2 get busy

abbrev surface : Surface
surface = record {
  addr = [];
  device_id = bytes "cuebooth";
  product_name = bytes "Cue \"Booth\"";
  rows = 4;
  cols = 8;
  bitmap_size = 72;
}

register_line-parsed_example :
    let (cmd, args) = parse_satellite_line (register_line surface) in
    (cmd ≡ bytes "ADD-DEVICE")
    × (arg (bytes "DEVICEID") args ≡ some surface.device_id)
    × (arg (bytes "PRODUCT_NAME") args ≡ some surface.product_name)
    × (arg (bytes "KEYS_TOTAL") args ≡ some (print (keys_total surface)))
    × (arg (bytes "KEYS_PER_ROW") args ≡ some (print (keys_per_row surface)))
    × (arg (bytes "BITMAPS") args ≡ some (print surface.bitmap_size))
register_line-parsed_example =
    register_line-parsed surface (all_plain_lem (bytes "cuebooth") refl)
      (all_printable_lem surface.product_name refl)

abbrev idle : Satellite.Satellite
idle = record {
  cfg = surface;
  out = none;
  connected = false;
  registered = false;
  awaiting = false;
  has_key = true;
  has_layout = true;
  has_clear = true;
}

abbrev at_rest : Life.World
at_rest = record { satellite = idle; phase = Life.between; reads = false; heard = none }

-- The verdict of this session comes while the reader runs; then the connection is lost.
Reach-IsOrderly_example :
    let asked = (register (set_session idle)).0 in
    IsOrderly (record {
      satellite = end_session (read_line asked (bytes "ADD-DEVICE OK")).0;
      phase = Life.between;
      reads = false;
      heard = none;
    })
unfolding set_session register enqueue enqueue_on read_line handle_line handle_command
    handle_add_device signal_registration parse_satellite_line arg trim_right
Reach-IsOrderly_example =
    let r0 = Life.Reach.later Life.Reach.start (Life.Step.dial at_rest refl) in
    let r1 = Life.Reach.later r0 (Life.Step.announce _ refl) in
    let r2 = Life.Reach.later r1 (Life.Step.read _ (bytes "ADD-DEVICE OK") refl) in
    let r3 = Life.Reach.later r2 (Life.Step.judge _ none refl refl) in
    let r4 = Life.Reach.later r3 (Life.Step.stop_reading _ refl) in
    let r5 = Life.Reach.later r4 (Life.Step.lose _ refl refl) in
    Reach-IsOrderly
      (record { queue = tt; registered_in_session = λ h. cc; awaiting_in_session = λ h. cc }) refl
      (Life.Reach.later r5 (Life.Step.tear_down _ refl refl))

line_registers_example : (idle.registered ≡ true) ⊎ Accepts (bytes "ADD-DEVICE OK DEVICEID=\"a\"")
unfolding handle_line handle_command handle_add_device signal_registration parse_satellite_line arg
line_registers_example = line_registers idle (bytes "ADD-DEVICE OK DEVICEID=\"a\"") refl

abbrev live : Satellite.Satellite
live = record idle { out = some []; connected = true; registered = true }

abbrev top_left : Location
top_left = record { page = 1; row = 0; column = 7 }

parse_location-to_string_example : parse_location (to_string top_left) ≡ Location.ok top_left
parse_location-to_string_example = parse_location-to_string top_left (record {
  on_a_page = omega arith;
  page_fits = omega arith;
  row_fits = omega arith;
  column_fits = omega arith;
})
