-- ===== src/Config/Presets.antt =====
-- server/internal/config/presets.go: the preset tables, checked at load and resolved per command.
-- A float64 is its 64 bits. An error is the return that gives it, without the message's text.
pub mod Routes
use cuebooth.Prelude.{
  ℕ, ◌≡◌, refl, Bool, true, false, not, ◌&&◌, ◌||◌, Option, none, some, List, [], ◌∷◌,
  if◌then◌else◌, Bytes,
}
use cuebooth.Bytes.{bytes, equal}
use cuebooth.Table.{Table, lookup}
use cuebooth.Companion.Location.{Location, parse_location}
use cuebooth.Companion.Location

pub record OscValue : Type 0 where
  pub value : ℕ
  pub set : Bool

pub record ActionRef : Type 0 where
  pub companion_button : Bytes
  pub osc_command : Bytes
  pub osc_value : OscValue

pub record Action : Type 0 where
  pub button : Option Location
  pub osc_command : Bytes
  pub osc_value : ℕ

pub record AudioPresets : Type 0 where
  pub mute : Table ActionRef
  pub unmute : Table ActionRef

pub record PresetsConfig : Type 0 where
  pub camera : Table (Table ActionRef)
  pub scene : Table ActionRef
  pub audio : AudioPresets
  pub streaming : Table ActionRef
  pub recording : Table ActionRef
  pub slides : Table ActionRef

pub data Error : Type 0 where
  both_routes no_route stray_value not_an_address no_value unknown_verb unknown_preset : Error
  bad_location : Location.Error → Error

pub data Result : Type 0 where
  ok : Action → Result
  error : Error → Result

abbrev pub is_some : Option Location → Bool
is_some none = false
is_some (some l) = true

unfoldable pub is_companion : Action → Bool
is_companion a = is_some a.button

unfoldable pub location_error : Location.Result Location → Option Error
location_error (Location.ok l) = none
location_error (Location.err e) = some (bad_location e)

pub starts_with_slash : Bytes → Bool
starts_with_slash [] = false
starts_with_slash (c ∷ s) = equal (c ∷ []) (bytes "/")

unfoldable pub validate_ref : ActionRef → Option Error
validate_ref r =
    let has_button = not (equal r.companion_button []) in
    let has_osc = not (equal r.osc_command []) in
    if has_button && has_osc
    then some both_routes
    else if not has_button && not has_osc
    then some no_route
    else if has_button
    then (if r.osc_value.set
        then some stray_value
        else location_error (parse_location r.companion_button))
    else if not (starts_with_slash r.osc_command)
    then some not_an_address
    else if not r.osc_value.set
    then some no_value
    else none

-- The first error of two checks made in turn.
abbrev pub and_then : Option Error → Option Error → Option Error
and_then none e = e
and_then (some e) later = some e

unfoldable pub validate_table : Table ActionRef → Option Error
validate_table [] = none
validate_table ((name, ref) ∷ t) = and_then (validate_ref ref) (validate_table t)

unfoldable pub validate_cameras : Table (Table ActionRef) → Option Error
validate_cameras [] = none
validate_cameras ((cam, names) ∷ t) = and_then (validate_table names) (validate_cameras t)

unfoldable pub contains : List Bytes → Bytes → Bool
contains [] name = false
contains (a ∷ allowed) name = equal a name || contains allowed name

-- One of the three tables of verbs.
unfoldable pub validate_verbs : List Bytes → Table ActionRef → Option Error
validate_verbs allowed [] = none
validate_verbs allowed ((name, ref) ∷ t) =
    if contains allowed name
    then and_then (validate_ref ref) (validate_verbs allowed t)
    else some unknown_verb

unfoldable pub validate : PresetsConfig → Option Error
validate p = and_then (validate_cameras p.camera) (
    and_then (validate_table p.scene) (
      and_then (validate_table p.audio.mute) (
        and_then (validate_table p.audio.unmute) (
          and_then (validate_verbs (bytes "start" ∷ bytes "stop" ∷ []) p.streaming) (
            and_then (validate_verbs (bytes "start" ∷ bytes "stop" ∷ []) p.recording)
              (validate_verbs (bytes "next" ∷ bytes "prev" ∷ []) p.slides))))))

pub press_action : Location.Result Location → Result
press_action (Location.ok l) = ok record { button = some l; osc_command = []; osc_value = 0 }
press_action (Location.err e) = error (bad_location e)

pub resolve : ActionRef → Result
resolve r =
    if not (equal r.companion_button [])
    then press_action (parse_location r.companion_button)
    else ok record { button = none; osc_command = r.osc_command; osc_value = r.osc_value.value }

pub resolve_found : Option ActionRef → Result
resolve_found none = error unknown_preset
resolve_found (some ref) = resolve ref

pub resolve_named : Table ActionRef → Bytes → Result
resolve_named m name = resolve_found (lookup name m)

pub resolve_in : Option (Table ActionRef) → Bytes → Result
resolve_in none name = error unknown_preset
resolve_in (some names) name = resolve_named names name

pub resolve_camera_preset : PresetsConfig → Bytes → Bytes → Result
resolve_camera_preset p camera_id name = resolve_in (lookup camera_id p.camera) name

unfoldable pub resolve_scene : PresetsConfig → Bytes → Result
resolve_scene p name = resolve_named p.scene name

unfoldable pub resolve_audio_mute : PresetsConfig → Bytes → Result
resolve_audio_mute p name = resolve_named p.audio.mute name

unfoldable pub resolve_audio_unmute : PresetsConfig → Bytes → Result
resolve_audio_unmute p name = resolve_named p.audio.unmute name

unfoldable pub resolve_streaming : PresetsConfig → Bytes → Result
resolve_streaming p verb = resolve_named p.streaming verb

unfoldable pub resolve_recording : PresetsConfig → Bytes → Result
resolve_recording p verb = resolve_named p.recording verb

unfoldable pub resolve_slides : PresetsConfig → Bytes → Result
resolve_slides p verb = resolve_named p.slides verb
