-- ===== src/Config/Presets/Routes.antt =====
-- presets.go: the check at load, and the routes of resolved presets.
use cuebooth.Prelude.{
  ◌≡◌, refl, true, false, Option, none, some, List, [], ◌∷◌, Bytes, ◌⊎◌, inl, inr, Bool-cases,
}
use cuebooth.Bytes.{bytes, equal}
use cuebooth.Table.{Table, lookup}
use cuebooth.Companion.Location.{Location, parse_location}
use cuebooth.Companion.Location
use cuebooth.Config.Presets.{
  ActionRef, Action, PresetsConfig, Result, ok, error, unknown_preset, validate_ref, validate_table,
  validate_cameras, validate_verbs, validate, and_then, resolve, resolve_named, resolve_found,
  resolve_in, resolve_camera_preset, resolve_scene, resolve_audio_mute, resolve_audio_unmute,
  resolve_streaming, resolve_recording, resolve_slides, Error, press_action, location_error,
  contains,
}

-- A button and no address, or an address and no button.
abbrev pub OneRoute : Action → Type 0
OneRoute a =
    ((l : Location) × (a.button ≡ some l) × (equal a.osc_command [] ≡ true))
    ⊎ ((a.button ≡ none) × (equal a.osc_command [] ≡ false))

-- A command finds no preset, or one with a single route.
abbrev pub Routed : Result → Type 0
Routed r = (r ≡ error unknown_preset) ⊎ ((a : Action) × (r ≡ ok a) × OneRoute a)

both_none : (a b : Option Error) → and_then a b ≡ none → (a ≡ none) × (b ≡ none)
both_none none b h = (refl, h)
both_none (some e) b h = cc

press_action-Routed :
    (r : Location.Result Location)
    → location_error r ≡ none
    → (a : Action) × (press_action r ≡ ok a) × OneRoute a
unfolding location_error press_action
press_action-Routed (Location.ok l) h = (_, refl, inl (l, refl, refl))
press_action-Routed (Location.err e) h = cc

resolve-OneRoute :
    (r : ActionRef) → validate_ref r ≡ none → (a : Action) × (resolve r ≡ ok a) × OneRoute a
unfolding validate_ref resolve
resolve-OneRoute r h = elim (Bool-cases (equal r.companion_button [])) [
  | inl no_button ↦ elim (Bool-cases (equal r.osc_command [])) [
    | inl no_osc ↦ cc (rw (no_button, no_osc) at h)
    | inr osc ↦ (
      record { button = none; osc_command = r.osc_command; osc_value = r.osc_value.value },
      rw no_button refl,
      inr (refl, osc),
    )
  ]
  | inr button ↦ elim (Bool-cases (equal r.osc_command [])) [
    | inl no_osc ↦ elim (Bool-cases r.osc_value.set) [
      | inl set ↦ cc (rw (button, no_osc, set) at h)
      | inr unset ↦ rw button (press_action-Routed _ (rw (button, no_osc, unset) at h))
    ]
    | inr osc ↦ cc (rw (button, osc) at h)
  ]
]

-- Every entry of a table passes the check.
abbrev pub AllValid : Table ActionRef → Type 0
AllValid [] = Unit
AllValid ((name, ref) ∷ t) = (validate_ref ref ≡ none) × AllValid t

validate_table-AllValid : (t : Table ActionRef) → validate_table t ≡ none → AllValid t
unfolding validate_table
validate_table-AllValid [] h = tt
validate_table-AllValid ((name, ref) ∷ t) h =
    let (first, rest) = both_none (validate_ref ref) (validate_table t) h in
    (first, validate_table-AllValid t rest)

validate_verbs-AllValid :
    (allowed : List Bytes) (t : Table ActionRef) → validate_verbs allowed t ≡ none → AllValid t
unfolding validate_verbs
validate_verbs-AllValid allowed [] h = tt
validate_verbs-AllValid allowed ((name, ref) ∷ t) h = elim (Bool-cases (contains allowed name)) [
  | inl known ↦
      let (first, rest) = both_none (validate_ref ref) (validate_verbs allowed t) (rw known at h) in
      (first, validate_verbs-AllValid allowed t rest)
  | inr unknown ↦ cc (rw unknown at h)
]

resolve_named-Routed :
    (t : Table ActionRef) (name : Bytes) → AllValid t → Routed (resolve_named t name)
unfolding resolve_named resolve_found lookup
resolve_named-Routed [] name v = inl refl
resolve_named-Routed ((j, ref) ∷ t) name v = elim (Bool-cases (equal j name)) [
  | inl here ↦ rw here (inr (resolve-OneRoute ref v.0))
  | inr later ↦ rw later (resolve_named-Routed t name v.1)
]

camera-Routed :
    (t : Table (Table ActionRef)) (cam name : Bytes)
    → validate_cameras t ≡ none
    → Routed (resolve_in (lookup cam t) name)
unfolding resolve_in lookup validate_cameras
camera-Routed [] cam name h = inl refl
camera-Routed ((j, names) ∷ t) cam name h =
    let (first, rest) = both_none (validate_table names) (validate_cameras t) h in
    elim (Bool-cases (equal j cam)) [
      | inl here ↦ rw here (resolve_named-Routed names name (validate_table-AllValid names first))
      | inr later ↦ rw later (camera-Routed t cam name rest)
    ]

-- What every name meets, by each of the seven methods that resolve one.
pub record AllResolved (P : Result → Type 0) (p : PresetsConfig) : Type 0 where
  pub camera : (id name : Bytes) → P (resolve_camera_preset p id name)
  pub scene : (name : Bytes) → P (resolve_scene p name)
  pub mute : (name : Bytes) → P (resolve_audio_mute p name)
  pub unmute : (name : Bytes) → P (resolve_audio_unmute p name)
  pub streaming : (verb : Bytes) → P (resolve_streaming p verb)
  pub recording : (verb : Bytes) → P (resolve_recording p verb)
  pub slides : (verb : Bytes) → P (resolve_slides p verb)

-- In a configuration that passes the check at load, every name that a command may send resolves, by
-- each of the seven methods, to no preset, or to an action with exactly one route: a Companion
-- button or an OSC address.
pub validate-AllResolved : (p : PresetsConfig) → validate p ≡ none → AllResolved Routed p
unfolding validate resolve_camera_preset resolve_scene resolve_audio_mute resolve_audio_unmute
    resolve_streaming resolve_recording resolve_slides
validate-AllResolved p h =
    let (cameras, r1) = both_none _ _ h in
    let (scenes, r2) = both_none _ _ r1 in
    let (mutes, r3) = both_none _ _ r2 in
    let (unmutes, r4) = both_none (validate_table p.audio.unmute) _ r3 in
    let start_stop = bytes "start" ∷ bytes "stop" ∷ [] in
    let next_prev = bytes "next" ∷ bytes "prev" ∷ [] in
    let (streams, r5) = both_none (validate_verbs start_stop p.streaming) _ r4 in
    let (recordings, slides) =
      both_none (validate_verbs start_stop p.recording) (validate_verbs next_prev p.slides) r5 in
    record {
      camera = λ id name. camera-Routed p.camera id name cameras;
      scene = λ name. resolve_named-Routed p.scene name (validate_table-AllValid _ scenes);
      mute = λ name. resolve_named-Routed p.audio.mute name (validate_table-AllValid _ mutes);
      unmute = λ name. resolve_named-Routed p.audio.unmute name (validate_table-AllValid _ unmutes);
      streaming = λ v.
          resolve_named-Routed p.streaming v
            (validate_verbs-AllValid start_stop p.streaming streams);
      recording = λ v.
          resolve_named-Routed p.recording v
            (validate_verbs-AllValid start_stop p.recording recordings);
      slides =
          λ v. resolve_named-Routed p.slides v (validate_verbs-AllValid next_prev p.slides slides);
    }
