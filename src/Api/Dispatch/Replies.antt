-- ===== src/Api/Dispatch/Replies.antt =====
-- What the dispatcher answers, and when it has pressed a button.
use cuebooth.Prelude.{
  either, ◌≡◌, ◌≢◌, Bool, true, false, not, Option, none, some, [], ◌∷◌, Bytes, inl, inr,
  Bool-cases, Option-cases,
}
use cuebooth.Bytes.{bytes, equal}
use cuebooth.Companion.Location.{Location}
use cuebooth.Config.Presets.{
  PresetsConfig, Result, unknown_preset, validate, resolve_audio_mute, resolve_audio_unmute,
  resolve_streaming, resolve_recording,
}
use cuebooth.Config.Presets
use cuebooth.Config.Presets.Routes.{AllResolved, Routed, validate-AllResolved}
use cuebooth.State.{State}
use cuebooth.Api.Dispatch.{
  Code, internal, protocol, unknown_target, unknown_action, device_unavailable, CmdFrame, Json, nak,
  done, Dispatched, reject, resolve_err, is_one_of, press_button, press, recall_camera, camera,
  recall_scene, scene, channel_err, set_mute, audio, streaming_or_recording, slides, dispatch,
  set_live,
}

module _ {Raw : Type 0} (json : Json Raw) (cfg : PresetsConfig) (comp_press : Location → Bool)
    (P : Dispatched → Type 0) (Q : Result → Type 0)
    (rejects : (c : Code) → c ≢ internal → P (reject c)) (confirms : P ([], done none))
    (presses : (code : Presets.Error → Code) (r : Result) (m : Option (State → State))
      → code unknown_preset ≢ internal
      → Q r
      → P (press json cfg comp_press code r m))
    (found : AllResolved Q cfg) where
  recall_camera_all :
      (cam : Bytes) (name : Option Bytes) → P (recall_camera json cfg comp_press cam name)
  unfolding recall_camera
  recall_camera_all cam none = rejects protocol (λ e. cc)
  recall_camera_all cam (some name) = presses resolve_err _ _ (λ e. cc) (found.camera cam name)

  camera_all : (c : CmdFrame Raw) → P (camera json cfg comp_press c)
  unfolding camera
  camera_all c =
      either P (equal c.action (bytes "preset")) (recall_camera_all _ (json.as_string c.value)) (
        either P (is_one_of c.action (bytes "position" ∷ bytes "pan_tilt" ∷ bytes "zoom" ∷ []))
          (rejects device_unavailable (λ e. cc)) (rejects unknown_action (λ e. cc)))

  recall_scene_all : (name : Option Bytes) → P (recall_scene json cfg comp_press name)
  unfolding recall_scene
  recall_scene_all none = rejects protocol (λ e. cc)
  recall_scene_all (some name) = presses resolve_err _ _ (λ e. cc) (found.scene name)

  scene_all : (c : CmdFrame Raw) → P (scene json cfg comp_press c)
  unfolding scene
  scene_all c =
      either P _ (rejects unknown_action (λ e. cc)) (recall_scene_all (json.as_string c.value))

  set_mute_all : (v : Option (Bytes × Option Bool)) → P (set_mute json cfg comp_press v)
  unfolding set_mute channel_err
  set_mute_all (some (id, some mute)) =
      either P (equal id []) (rejects protocol (λ e. cc))
        (presses _ _ _ (λ e. cc) (either Q mute (found.mute id) (found.unmute id)))
  set_mute_all (some (id, none)) = rejects protocol (λ e. cc)
  set_mute_all none = rejects protocol (λ e. cc)

  audio_all : (c : CmdFrame Raw) → P (audio json cfg comp_press c)
  unfolding audio
  audio_all c = either P _ (set_mute_all (json.as_mute c.value)) (
      either P
        (is_one_of c.action
          (bytes "set_fader" ∷ bytes "set_gain" ∷ bytes "apply_profile" ∷ bytes "dca_member" ∷ []))
        (rejects device_unavailable (λ e. cc)) (rejects unknown_action (λ e. cc)))

  streaming_all :
      (c : CmdFrame Raw) (recording : Bool)
      → P (streaming_or_recording json cfg comp_press c recording)
  unfolding streaming_or_recording
  streaming_all c recording =
      either P (not (is_one_of c.action (bytes "start" ∷ bytes "stop" ∷ [])))
        (rejects unknown_action (λ e. cc))
        (presses resolve_err _ (some (set_live recording (equal c.action (bytes "start"))))
          (λ e. cc) (either Q recording (found.recording c.action) (found.streaming c.action)))

  slides_all : (c : CmdFrame Raw) → P (slides json cfg comp_press c)
  unfolding slides
  slides_all c =
      either P (is_one_of c.action (bytes "next" ∷ bytes "prev" ∷ []))
        (presses resolve_err _ none (λ e. cc) (found.slides c.action))
        (either P (is_one_of c.action (bytes "confirm_pending" ∷ bytes "cancel_pending" ∷ []))
          confirms (rejects unknown_action (λ e. cc)))

  -- What holds of every way to answer holds of the dispatcher's answer.
  dispatch_all : (c : CmdFrame Raw) → P (dispatch json cfg comp_press c)
  unfolding dispatch
  dispatch_all c = either P (equal c.target _) (camera_all c) (
      either P (equal c.target _) (scene_all c) (
        either P (equal c.target _) (audio_all c) (
          either P (equal c.target _) (streaming_all c false) (
            either P (equal c.target _) (streaming_all c true) (
              either P (equal c.target _) (slides_all c) (
                either P (is_one_of c.target (bytes "power" ∷ bytes "automation" ∷ []))
                  (rejects device_unavailable (λ e. cc)) (rejects unknown_target (λ e. cc))))))))

-- The four ways in which a command ends: rejected or confirmed with no press, or after one press,
-- with the reply that Companion's answer calls for.
pub data Answered (comp_press : Location → Bool) : Dispatched → Type 0 where
  rejected : (c : Code) → Answered comp_press ([], nak c)
  confirmed : Answered comp_press ([], done none)
  pressed :
      (l : Location) (m : Option (State → State))
      → comp_press l ≡ true
      → Answered comp_press (l ∷ [], done m)
  refused :
      (l : Location) → comp_press l ≡ false → Answered comp_press (l ∷ [], nak device_unavailable)

press-Answered :
    {Raw : Type 0} (json : Json Raw) (cfg : PresetsConfig) (comp_press : Location → Bool)
    (code : Presets.Error → Code) (r : Result) (m : Option (State → State))
    → Answered comp_press (press json cfg comp_press code r m)
unfolding press press_button
press-Answered json cfg comp_press code (Presets.error e) m = rejected (code e)
press-Answered json cfg comp_press code (Presets.ok act) m = elim (Option-cases act.button) [
  | inl none_there ↦ rw none_there (rejected device_unavailable)
  | inr (l, there) ↦ elim (Bool-cases (comp_press l)) [
    | inl ok ↦ rw (there, ok) (pressed l m ok)
    | inr failed ↦ rw (there, failed) (refused l failed)
  ]
]

-- A command is rejected, or confirmed with no mutator, and nothing is pressed; or it presses exactly
-- one button, and then is acked, with or without a mutator, if Companion took the press, and else is
-- rejected as device_unavailable.
pub dispatch-Answered :
    {Raw : Type 0} (json : Json Raw) (cfg : PresetsConfig) (comp_press : Location → Bool)
    (c : CmdFrame Raw)
    → Answered comp_press (dispatch json cfg comp_press c)
dispatch-Answered json cfg comp_press c =
    dispatch_all json cfg comp_press (Answered comp_press) (λ r. Unit {0}) (λ code n. rejected code)
      confirmed (λ code r m n q. press-Answered json cfg comp_press code r m)
      (record {
        camera = λ id name. tt;
        scene = λ name. tt;
        mute = λ name. tt;
        unmute = λ name. tt;
        streaming = λ v. tt;
        recording = λ v. tt;
        slides = λ v. tt;
      })
      c

press_coded :
    {Raw : Type 0} (json : Json Raw) (cfg : PresetsConfig) (comp_press : Location → Bool)
    (code : Presets.Error → Code) (r : Result) (m : Option (State → State))
    → code unknown_preset ≢ internal
    → Routed r
    → (press json cfg comp_press code r m).1 ≢ nak internal
unfolding press press_button
press_coded json cfg comp_press code r m n (inl unknown) = rw unknown (λ e. n cc)
press_coded json cfg comp_press code r m n (inr (a, found, route)) =
    rw found (elim (Option-cases a.button) [
      | inl none_there ↦ rw none_there (λ e. cc)
      | inr (l, there) ↦ elim (Bool-cases (comp_press l)) [
        | inl ok ↦ rw (there, ok) (λ e. cc)
        | inr failed ↦ rw (there, failed) (λ e. cc)
      ]
    ])

-- Over a configuration that passed the check at load, no command is rejected as internal.
pub dispatch_never_internal :
    {Raw : Type 0} (json : Json Raw) (cfg : PresetsConfig) (comp_press : Location → Bool)
    (c : CmdFrame Raw)
    → validate cfg ≡ none
    → (dispatch json cfg comp_press c).1 ≢ nak internal
dispatch_never_internal json cfg comp_press c valid =
    dispatch_all json cfg comp_press (λ d. d.1 ≢ nak internal) Routed (λ code n e. n cc) (λ e. cc)
      (press_coded json cfg comp_press) (validate-AllResolved cfg valid) c
