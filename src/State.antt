-- ===== src/State.antt =====
-- server/internal/state/state.go: the show state that the server publishes. A float64 is its 64 bits,
-- zero being all zeros; a pointer that may be nil, and a nil slice, is an option.
pub mod Json
pub mod MergePatch
pub mod AppState
pub mod Store
pub mod Poller
use cuebooth.Prelude.{ℕ, Bool, false, Option, none, some, List, [], ◌∷◌, Bytes, ℤ, pos}
use cuebooth.Bytes.{bytes}
use cuebooth.Table.{Table, lookup, insert}

pub record Camera : Type 0 where
  pub preset : Bytes
  pub pan : ℕ
  pub tilt : ℕ
  pub zoom : ℕ

pub record ObsState : Type 0 where
  pub scene : Bytes
  pub streaming : Bool
  pub recording : Bool
  pub uptime_seconds : ℤ

pub record SlidesState : Type 0 where
  pub current : ℤ
  pub total : ℤ
  pub title : Bytes
  pub pending_actions : Option (List Bytes)

pub record ChatState : Type 0 where
  pub provider : Bytes
  pub status : Bytes

pub record StreamState : Type 0 where
  pub platform : Bytes
  pub viewers : ℤ
  pub chat : Option ChatState

pub record AudioChannel : Type 0 where
  pub mute : Bool
  pub level_db : ℕ
  pub gain_db : ℕ

pub record AudioDca : Type 0 where
  pub mute : Bool
  pub level_db : ℕ

pub record AudioState : Type 0 where
  pub channels : Table AudioChannel
  pub dca : Table AudioDca

pub record State : Type 0 where
  pub audio : Option AudioState
  pub camera : Table Camera
  pub obs : Option ObsState
  pub slides : Option SlidesState
  pub stream : Option StreamState

-- `Topics`
unfoldable pub topics : List Bytes
topics = bytes "audio" ∷ bytes "camera" ∷ bytes "obs" ∷ bytes "slides" ∷ bytes "stream" ∷ []

unfoldable pub filled : SlidesState → SlidesState
filled s = elim s.pending_actions [
  | none ↦ record s { pending_actions = some [] }
  | some actions ↦ s
]

unfoldable pub normalize_slides : Option SlidesState → Option SlidesState
normalize_slides none = none
normalize_slides (some s) = some (filled s)

unfoldable pub normalize : State → State
normalize st = record st { slides = normalize_slides st.slides }

abbrev pub zero_camera : Camera
zero_camera = record { preset = []; pan = 0; tilt = 0; zoom = 0 }

abbrev pub or_zero_camera : Option Camera → Camera
or_zero_camera none = zero_camera
or_zero_camera (some c) = c

-- A write through the pointer that CameraOrNew gives.
unfoldable pub update_camera : Bytes → (Camera → Camera) → State → State
update_camera id f st = record st {
  camera = insert id (f (or_zero_camera (lookup id st.camera))) st.camera;
}

abbrev pub or_zero_obs : Option ObsState → ObsState
or_zero_obs none = record {
  scene = [];
  streaming = false;
  recording = false;
  uptime_seconds = pos 0;
}
or_zero_obs (some o) = o

-- A write through the pointer that OBSOrNew gives.
unfoldable pub update_obs : (ObsState → ObsState) → State → State
update_obs f st = record st { obs = some (f (or_zero_obs st.obs)) }
