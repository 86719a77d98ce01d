-- ===== src/Tests/Sync.antt =====
-- Concrete inputs for the theorems on the state: a marshaller of the OBS part, and a test of JSON values.
use cuebooth.Prelude.{
  ℕ, ◌==◌, ◌≡◌, ◌⊎◌, inl, inr, refl, subst, Bool, true, false, Option, none, some, List, [], ◌∷◌,
  Bytes, pos, Bool-cases, ==→eq,
}
use cuebooth.Bytes.{bytes, equal}
use cuebooth.Bytes.Equal.{equal→eq}
use cuebooth.State.{State, ObsState, normalize, normalize_slides, topics, update_obs}
use cuebooth.State.Json.{
  Json, null, bool, num, str, arr, obj, Object, end, field, lookup, append, is_empty, is_null,
  object_at, IsCleanObject,
}
use cuebooth.State.Json.Same.{Same, same_str, same_num, Same-refl}
use cuebooth.State.MergePatch.{diff, diff_each, removed, change, replace, filter_topics, has_topic}
use cuebooth.State.MergePatch.Client.{apply_fields}
use cuebooth.State.MergePatch.Follows.{apply_fields-diff}
use cuebooth.State.AppState.{AppState, reset, apply_snapshot}
use cuebooth.State.Store.{Store, snapshot, update, after_marshal, commit, receive_all}
use cuebooth.State.Store.Mirror.{Mirrors, IsBehind, update_mirrored}
use cuebooth.State.Store.Gaps.{MeetsGap, AllResults, behind_gap, snapshot-Mirrors}
use cuebooth.State.Store.Updates.{Covers, IsValid}
use cuebooth.State.Poller.{Fetched}
use cuebooth.Api.Dispatch.{CmdFrame, Reply, done}
use cuebooth.Api.Surface.{SurfaceKeyFrame, SurfaceLayoutFrame}
use cuebooth.Api.Connection.{Frame}
use cuebooth.Api.Hub.Linked.{
  Link, at_frame, left, retopiced, leaving, changing, rejoining, snapshot_sent, IsSynced, connected,
  updated, connected_conn, Reach-IsSynced,
}
use cuebooth.Api.Hub.{broadcast_to}
use cuebooth.Api.Connection.{join_hub, set_topics}
use cuebooth.Tests.Encoding.{
  read, marshal_state, marshal_delta, read-marshal_state, read-marshal_delta,
}

-- Equal where both are the same text or number.
abbrev deep_equal : Json → Json → Bool
deep_equal (str s) (str t) = equal s t
deep_equal (num m) (num n) = m == n
deep_equal _ _ = false

deep_equal-Same : (v w : Json) → deep_equal v w ≡ true → Same v w
deep_equal-Same (str s) (str t) e = rw (equal→eq s t e) (same_str t)
deep_equal-Same (str s) null e = cc
deep_equal-Same (str s) (bool b) e = cc
deep_equal-Same (str s) (num n) e = cc
deep_equal-Same (str s) (arr xs) e = cc
deep_equal-Same (str s) (obj o) e = cc
deep_equal-Same (num m) (num n) e = rw (==→eq m n e) (same_num n)
deep_equal-Same (num m) null e = cc
deep_equal-Same (num m) (bool b) e = cc
deep_equal-Same (num m) (str s) e = cc
deep_equal-Same (num m) (arr xs) e = cc
deep_equal-Same (num m) (obj o) e = cc
deep_equal-Same null w e = cc
deep_equal-Same (bool b) w e = cc
deep_equal-Same (arr xs) w e = cc
deep_equal-Same (obj o) w e = cc

-- The JSON form, of the OBS part alone.
abbrev obs_fields : Option ObsState → Object
obs_fields none = end
obs_fields (some o) =
    field (bytes "obs")
      (obj (field (bytes "scene") (str o.scene) (field (bytes "streaming") (bool o.streaming) end)))
      end

abbrev to_map : State → Option Object
to_map st = some (obs_fields st.obs)

some_inj : {a b : Object} → some a ≡ some b → a ≡ b
some_inj e = cc

obs_fields-IsCleanObject : (o : Option ObsState) → IsCleanObject (obs_fields o)
unfolding lookup is_null
obs_fields-IsCleanObject none = tt
obs_fields-IsCleanObject (some o) = (refl, refl, (refl, refl, tt, (refl, refl, tt, tt)), tt)

to_map-IsCleanObject : (st : State) (o : Object) → to_map (normalize st) ≡ some o → IsCleanObject o
to_map-IsCleanObject st o e =
    subst IsCleanObject (some_inj e) (obs_fields-IsCleanObject (normalize st).obs)

obs_fields-Covers : (o : Option ObsState) → Covers topics (obs_fields o)
unfolding lookup topics
obs_fields-Covers none k v e = cc
obs_fields-Covers (some o) k v e = elim (Bool-cases (equal (bytes "obs") k)) [
  | inl here ↦ subst (λ x. has_topic topics x ≡ true) (equal→eq (bytes "obs") k here) refl
  | inr other ↦ cc (rw other at e)
]

to_map-Covers : (st : State) (o : Object) → to_map st ≡ some o → Covers topics o
to_map-Covers st o e = subst (Covers topics) (some_inj e) (obs_fields-Covers st.obs)

abbrev no_state : State
no_state = record { audio = none; camera = []; obs = none; slides = none; stream = none }

abbrev to_worship : State → State
to_worship st = update_obs (λ o. record o { scene = bytes "worship" }) st

abbrev to_sermon : State → State
to_sermon st = update_obs (λ o. record o { scene = bytes "sermon" }) st

abbrev empty_store : Store
empty_store = record { st = no_state; cur = end; rev = 0 }

empty_store-IsValid : IsValid topics empty_store
unfolding lookup
empty_store-IsValid = record { clean = tt; covered = λ k v e. cc }

abbrev worship : ObsState
worship = record {
  scene = bytes "worship";
  streaming = false;
  recording = false;
  uptime_seconds = pos 0;
}

abbrev sermon : ObsState
sermon = record worship { scene = bytes "sermon"; streaming = true }

abbrev old_fields : Object
old_fields = obs_fields (some worship)

abbrev new_fields : Object
new_fields = obs_fields (some sermon)

apply_fields-diff_example :
    Same (obj (apply_fields old_fields (diff deep_equal old_fields new_fields))) (obj new_fields)
apply_fields-diff_example =
    apply_fields-diff deep_equal deep_equal-Same old_fields old_fields new_fields
      (Same-refl (obj old_fields)) (obs_fields-IsCleanObject (some worship))
      (obs_fields-IsCleanObject (some sermon))

-- A client of the camera alone.
abbrev camera_only : List Bytes
camera_only = bytes "camera" ∷ []

abbrev baseline : List Bytes → AppState
baseline ts = apply_snapshot reset (snapshot empty_store ts).0 (snapshot empty_store ts).1

update_mirrored_example :
    let (s', res, observed) = update to_map deep_equal empty_store to_worship in
    Mirrors camera_only s' (receive_all camera_only (baseline camera_only) observed)
    ⊎ IsBehind camera_only s' (receive_all camera_only (baseline camera_only) observed)
update_mirrored_example =
    update_mirrored to_map deep_equal deep_equal-Same to_map-IsCleanObject camera_only empty_store
      to_worship (baseline camera_only) tt (snapshot-Mirrors camera_only empty_store reset)

-- It has been passed over by the update of the scene.
abbrev later_store : Store
later_store = (update to_map deep_equal empty_store to_worship).0

passed_over : IsBehind camera_only later_store (baseline camera_only)
unfolding update after_marshal commit apply_snapshot snapshot diff diff_each removed append is_empty
    filter_topics normalize normalize_slides update_obs lookup change replace object_at
passed_over = record { baseline = refl; one_rev = refl; copy = Same-refl (obj end) }

behind_gap_example :
    AllResults
      (MeetsGap camera_only (baseline camera_only))
      (update to_map deep_equal later_store to_sermon).2
behind_gap_example =
    behind_gap to_map deep_equal camera_only later_store to_sermon (baseline camera_only)
      passed_over

abbrev ticks : List (List Fetched)
ticks = (some (some to_worship) ∷ none ∷ some (some to_sermon) ∷ []) ∷ (none ∷ some none ∷ []) ∷ []

abbrev no_bytes : Frame → Bytes
no_bytes f = []

abbrev no_key : SurfaceKeyFrame → Bytes
no_key f = []

abbrev no_layout : SurfaceLayoutFrame → Bytes
no_layout l = []

abbrev no_dispatch : CmdFrame Bytes → Reply
no_dispatch f = done none

abbrev delivers : ℕ → Bool → Bool
delivers key down = true

-- A connection joins, starts a subscription change, and misses an update that comes within it; the
-- snapshot with which it joins again brings that update.
abbrev joined_link : Link
joined_link = record {
  reading = at_frame;
  store = empty_store;
  conn =
      connected_conn to_map deep_equal read marshal_state marshal_delta no_bytes no_key no_layout
        no_dispatch delivers none empty_store [];
  app = reset;
}

abbrev updated_link : Link
updated_link = record {
  reading = left;
  store = (update to_map deep_equal empty_store to_worship).0;
  conn =
      broadcast_to marshal_delta (record joined_link.conn { in_hub = false })
        (update to_map deep_equal empty_store to_worship).2;
  app = reset;
}

abbrev changed_link : Link
changed_link = record updated_link {
  reading = retopiced;
  conn = record updated_link.conn {
    topics = set_topics true (bytes "stream" ∷ []) updated_link.conn.topics;
  };
}

abbrev the_link : Link
the_link = record changed_link {
  reading = at_frame;
  conn =
      (join_hub no_bytes no_key no_layout no_dispatch delivers none (
        snapshot_sent to_map deep_equal read marshal_state marshal_delta no_bytes no_key no_layout
          no_dispatch delivers none changed_link.store changed_link.conn)).0;
}

Reach-IsSynced_example :
    IsSynced to_map deep_equal read marshal_state marshal_delta no_bytes no_key no_layout
      no_dispatch delivers none the_link
Reach-IsSynced_example =
    Reach-IsSynced to_map deep_equal read marshal_state marshal_delta no_bytes no_key no_layout
      no_dispatch delivers none deep_equal-Same to_map-IsCleanObject to_map-Covers
      read-marshal_state read-marshal_delta the_link
      (rejoining
        (changing true (bytes "stream" ∷ [])
          (updated to_worship (leaving (connected empty_store [] empty_store-IsValid) refl)) refl)
        refl)
