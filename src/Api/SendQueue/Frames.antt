-- ===== src/Api/SendQueue/Frames.antt =====
-- What the surface lane of sendqueue.go promises, as operations on the list of its frames, with no
-- handles and no index.
use cuebooth.Prelude.{
  ℕ, ◌<◌, ◌≡◌, Bool, true, false, not, ◌&&◌, Option, none, some, List, [], ◌∷◌, ◌++◌, ltb, leb,
  ◌==◌, if◌then◌else◌, length, Bytes,
}
use cuebooth.Api.SendQueue.{
  SurfaceFrame, SendQueue, send_buffer, key_frame, layout_frame, push_other, push_surface_key,
  push_surface_layout, pop,
}

-- A render of key `k`.
abbrev pub is_key : ℕ → SurfaceFrame → Bool
is_key k f = not f.layout && f.key == k

-- The newer of two renders of a key stands where the older one stood.
unfoldable pub put_key : SurfaceFrame → List SurfaceFrame → List SurfaceFrame
put_key f [] = f ∷ []
put_key f (g ∷ gs) =
    if is_key f.key g then (if leb f.seq g.seq then g ∷ gs else f ∷ gs) else g ∷ put_key f gs

-- What a layout at `seq` replaces: every layout, and the renders at or below it.
abbrev pub superseded : ℕ → SurfaceFrame → Bool
superseded seq g = if g.layout then true else leb g.seq seq

unfoldable pub keep : ℕ → List SurfaceFrame → List SurfaceFrame
keep seq [] = []
keep seq (g ∷ gs) = if superseded seq g then keep seq gs else g ∷ keep seq gs

unfoldable pub has_newer_layout : ℕ → List SurfaceFrame → Bool
has_newer_layout seq [] = false
has_newer_layout seq (g ∷ gs) = if g.layout then ltb seq g.seq else has_newer_layout seq gs

unfoldable pub put_layout : SurfaceFrame → List SurfaceFrame → List SurfaceFrame
unfolding keep has_newer_layout
put_layout f fs = if has_newer_layout f.seq fs then fs else keep f.seq fs ++ f ∷ []

abbrev pub NoKey : ℕ → List SurfaceFrame → Type 0
NoKey k [] = Unit {0}
NoKey k (g ∷ gs) = (is_key k g ≡ false) × NoKey k gs

-- Every layout of the list is below `seq`.
abbrev pub LayoutsBelow : ℕ → List SurfaceFrame → Type 0
LayoutsBelow seq [] = Unit {0}
LayoutsBelow seq (g ∷ gs) = (g.layout ≡ true → g.seq < seq) × LayoutsBelow seq gs

abbrev pub NoLayout : List SurfaceFrame → Type 0
NoLayout [] = Unit {0}
NoLayout (g ∷ gs) = (g.layout ≡ false) × NoLayout gs

-- A lane holds one render per key and one layout at most, and a render ahead of the layout is newer
-- than the layout.
abbrev pub IsCoherent : List SurfaceFrame → Type 0
IsCoherent [] = Unit {0}
IsCoherent (g ∷ gs) =
    (g.layout ≡ false → NoKey g.key gs × LayoutsBelow g.seq gs)
    × (g.layout ≡ true → NoLayout gs)
    × IsCoherent gs

-- The queue as its users see it: two lists of frames.
pub record Lanes : Type 0 where
  pub state : List Bytes
  pub surface : List SurfaceFrame

pub data Call : Type 0 where
  other : Bytes → Call
  key_update : ℕ → ℕ → Bytes → Call
  re_layout : ℕ → Bytes → Call
  take : Call

pub data Reply : Type 0 where
  accepted : Bool → Reply
  queued : Reply
  popped : Option Bytes → Reply

abbrev take_surface : List SurfaceFrame → Lanes × Reply
take_surface [] = (record { state = []; surface = [] }, popped none)
take_surface (f ∷ fs) = (record { state = []; surface = fs }, popped (some f.payload))

abbrev take_front : List Bytes → List SurfaceFrame → Lanes × Reply
take_front [] fs = take_surface fs
take_front (payload ∷ rest) fs = (record { state = rest; surface = fs }, popped (some payload))

-- The specification of the queue.
unfoldable pub answer : Lanes → Call → Lanes × Reply
unfolding put_key put_layout
answer l (other payload) =
    if leb send_buffer (length l.state)
    then (l, accepted false)
    else (record l { state = l.state ++ payload ∷ [] }, accepted true)
answer l (key_update key seq payload) =
    (record l { surface = put_key (key_frame key seq payload) l.surface }, queued)
answer l (re_layout seq payload) =
    (record l { surface = put_layout (layout_frame seq payload) l.surface }, queued)
answer l take = take_front l.state l.surface

-- The methods of the queue, each with what it returns.
unfoldable pub perform : SendQueue → Call → SendQueue × Reply
perform q (other payload) = let (q', room) = push_other q payload in (q', accepted room)
perform q (key_update key seq payload) = (push_surface_key q key seq payload, queued)
perform q (re_layout seq payload) = (push_surface_layout q seq payload, queued)
perform q take = let (q', frame) = pop q in (q', popped frame)
