-- ===== src/Api/Dispatch.antt =====
-- server/internal/api/dispatch.go: a client command becomes a Companion press and a state mutator.
-- encoding/json and the Companion client are parameters. A nak is its code, without the text.
pub mod Replies
use cuebooth.Prelude.{
  ◌≡◌, refl, Bool, true, false, not, ◌||◌, Option, none, some, List, [], ◌∷◌, if◌then◌else◌, Bytes,
}
use cuebooth.Bytes.{bytes, equal}
use cuebooth.Companion.Location.{Location}
use cuebooth.Config.Presets.{
  Action, PresetsConfig, Result, unknown_preset, resolve_camera_preset, resolve_scene,
  resolve_audio_mute, resolve_audio_unmute, resolve_streaming, resolve_recording, resolve_slides,
}
use cuebooth.Config.Presets
use cuebooth.State.{State, update_camera, update_obs}

pub data Code : Type 0 where
  protocol unknown_target unknown_action unknown_topic unknown_channel invalid_target_kind
        device_unavailable internal :
      Code
  unknown_preset_code : Code

pub record CmdFrame (Raw : Type 0) : Type 0 where
  pub id : Bytes
  pub target : Bytes
  pub action : Bytes
  pub value : Raw
  pub camera_id : Bytes

-- How encoding/json reads a raw value: as a string, and as an object with `id` and `mute`.
pub record Json (Raw : Type 0) : Type 0 where
  pub as_string : Raw → Option Bytes
  pub as_mute : Raw → Option (Bytes × Option Bool)

-- The buttons pressed, and the nak's code or the mutator, if there is one.
pub data Reply : Type 0 where
  nak : Code → Reply
  done : Option (State → State) → Reply

abbrev pub Dispatched : Type 0
Dispatched = List Location × Reply

abbrev pub reject : Code → Dispatched
reject c = ([], nak c)

abbrev pub resolve_err : Presets.Error → Code
resolve_err unknown_preset = unknown_preset_code
resolve_err _ = internal

abbrev pub or_default_camera : Bytes → Bytes
or_default_camera id = if equal id [] then bytes "main" else id

abbrev pub is_one_of : Bytes → List Bytes → Bool
is_one_of a [] = false
is_one_of a (b ∷ bs) = equal a b || is_one_of a bs

-- The mutator of streaming and recording.
pub set_live : Bool → Bool → State → State
set_live recording on st =
    update_obs (λ o. if recording then record o { recording = on } else record o { streaming = on })
      st

module _ {Raw : Type 0} (json : Json Raw) (cfg : PresetsConfig) (comp_press : Location → Bool) where
  -- `press`, then what the handler returns when it succeeds.
  pub press_button : Option Location → Option (State → State) → Dispatched
  press_button none mutate = reject device_unavailable
  press_button (some l) mutate =
      if comp_press l then (l ∷ [], done mutate) else (l ∷ [], nak device_unavailable)

  -- A resolved action is pressed, and a resolution that failed is rejected.
  pub press : (Presets.Error → Code) → Result → Option (State → State) → Dispatched
  press code (Presets.ok act) mutate = press_button act.button mutate
  press code (Presets.error e) mutate = reject (code e)

  recall_camera : Bytes → Option Bytes → Dispatched
  recall_camera cam none = reject protocol
  recall_camera cam (some name) =
      press resolve_err (resolve_camera_preset cfg cam name)
        (some (update_camera cam (λ c. record c { preset = name })))

  pub camera : CmdFrame Raw → Dispatched
  camera c =
      if equal c.action (bytes "preset")
      then recall_camera (or_default_camera c.camera_id) (json.as_string c.value)
      else if is_one_of c.action (bytes "position" ∷ bytes "pan_tilt" ∷ bytes "zoom" ∷ [])
      then reject device_unavailable
      else reject unknown_action

  recall_scene : Option Bytes → Dispatched
  recall_scene none = reject protocol
  recall_scene (some name) =
      press resolve_err (resolve_scene cfg name)
        (some (update_obs (λ o. record o { scene = name })))

  pub scene : CmdFrame Raw → Dispatched
  scene c =
      if not (equal c.action (bytes "set"))
      then reject unknown_action
      else recall_scene (json.as_string c.value)

  channel_err : Presets.Error → Code
  channel_err unknown_preset = unknown_channel
  channel_err _ = internal

  set_mute : Option (Bytes × Option Bool) → Dispatched
  set_mute (some (id, some mute)) =
      if equal id []
      then reject protocol
      else press channel_err
          (if mute then resolve_audio_mute cfg id else resolve_audio_unmute cfg id) none
  set_mute _ = reject protocol

  pub audio : CmdFrame Raw → Dispatched
  audio c =
      if equal c.action (bytes "set_mute")
      then set_mute (json.as_mute c.value)
      else if is_one_of c.action
          (bytes "set_fader" ∷ bytes "set_gain" ∷ bytes "apply_profile" ∷ bytes "dca_member" ∷ [])
      then reject device_unavailable
      else reject unknown_action

  pub streaming_or_recording : CmdFrame Raw → Bool → Dispatched
  streaming_or_recording c recording =
      if not (is_one_of c.action (bytes "start" ∷ bytes "stop" ∷ []))
      then reject unknown_action
      else press resolve_err
          (if recording then resolve_recording cfg c.action else resolve_streaming cfg c.action)
          (some (set_live recording (equal c.action (bytes "start"))))

  pub slides : CmdFrame Raw → Dispatched
  slides c =
      if is_one_of c.action (bytes "next" ∷ bytes "prev" ∷ [])
      then press resolve_err (resolve_slides cfg c.action) none
      else if is_one_of c.action (bytes "confirm_pending" ∷ bytes "cancel_pending" ∷ [])
      then ([], done none)
      else reject unknown_action

  pub dispatch : CmdFrame Raw → Dispatched
  dispatch c =
      if equal c.target (bytes "camera")
      then camera c
      else if equal c.target (bytes "scene")
      then scene c
      else if equal c.target (bytes "audio")
      then audio c
      else if equal c.target (bytes "streaming")
      then streaming_or_recording c false
      else if equal c.target (bytes "recording")
      then streaming_or_recording c true
      else if equal c.target (bytes "slides")
      then slides c
      else if is_one_of c.target (bytes "power" ∷ bytes "automation" ∷ [])
      then reject device_unavailable
      else reject unknown_target
