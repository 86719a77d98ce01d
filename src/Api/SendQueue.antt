-- ===== src/Api/SendQueue.antt =====
-- server/internal/api/sendqueue.go: a connection's outbound queue, with its list elements, the index
-- of the newest element per key, and the handle of the layout element.
-- A handle stands for a `*list.Element`; `next_id` is fresh. Key indices are natural numbers, which
-- `surfaceManager.inBounds` guards.
pub mod Frames
pub mod StateLane
pub mod Coalesce
pub mod Handles
pub mod Delivery
pub mod Pictures
use cuebooth.Prelude.{
  ℕ, suc, ◌+◌, Bool, true, false, ◌&&◌, Option, none, some, List, [], ◌∷◌, ◌++◌, ltb, leb, ◌==◌,
  if◌then◌else◌, length, Bytes,
}

pub record SurfaceFrame : Type 0 where
  pub payload : Bytes
  pub key : ℕ
  pub seq : ℕ
  pub layout : Bool

-- A list element: the pointer by which `keys` and `layout` refer to it, and its value.
pub record Element : Type 0 where
  pub handle : ℕ
  pub value : SurfaceFrame

pub record SendQueue : Type 0 where
  pub state : List Bytes
  pub surface : List Element
  pub keys : ℕ → Option ℕ
  pub layout : Option ℕ
  pub next_id : ℕ
  -- whether the one-place wake channel holds a signal
  pub wake : Bool

abbrev pub send_buffer : ℕ
send_buffer = 64

unfoldable pub new_send_queue : SendQueue
new_send_queue = record {
  state = [];
  surface = [];
  keys = λ k. none;
  layout = none;
  next_id = 0;
  wake = false;
}

-- `e.Value`, `e.Value = frame` and `list.Remove(e)` on the element with this handle.
unfoldable pub value_of : ℕ → List Element → Option SurfaceFrame
value_of h [] = none
value_of h (e ∷ es) = if e.handle == h then some e.value else value_of h es

unfoldable pub set_value : ℕ → SurfaceFrame → List Element → List Element
set_value h f [] = []
set_value h f (e ∷ es) =
    let rest = set_value h f es in if e.handle == h then record e { value = f } ∷ es else e ∷ rest

unfoldable pub remove : ℕ → List Element → List Element
remove h [] = []
remove h (e ∷ es) = let rest = remove h es in if e.handle == h then es else e ∷ rest

unfoldable pub set_key : (ℕ → Option ℕ) → ℕ → Option ℕ → ℕ → Option ℕ
set_key keys k v j = if k == j then v else keys j

-- Whether the element that a handle names has a sequence of at most, or at least, `seq`.
abbrev pub at_most : ℕ → Option SurfaceFrame → Bool
at_most seq none = false
at_most seq (some f) = leb f.seq seq

abbrev pub at_least : ℕ → Option SurfaceFrame → Bool
at_least seq none = false
at_least seq (some f) = leb seq f.seq

abbrev pub above : ℕ → Option SurfaceFrame → Bool
above seq none = false
above seq (some f) = ltb seq f.seq

pub push_back : SendQueue → SurfaceFrame → SendQueue
push_back q f = record q {
  surface = q.surface ++ record { handle = q.next_id; value = f } ∷ [];
  next_id = suc q.next_id;
}

unfoldable pub poke : SendQueue → SendQueue
poke q = record q { wake = true }

unfoldable pub push_other : SendQueue → Bytes → SendQueue × Bool
unfolding poke
push_other q payload =
    if leb send_buffer (length q.state)
    then (q, false)
    else (poke (record q { state = q.state ++ payload ∷ [] }), true)

abbrev pub key_frame : ℕ → ℕ → Bytes → SurfaceFrame
key_frame key seq payload = record { payload = payload; key = key; seq = seq; layout = false }

abbrev pub layout_frame : ℕ → Bytes → SurfaceFrame
layout_frame seq payload = record { payload = payload; key = 0; seq = seq; layout = true }

-- The two branches of `if e, ok := q.keys[key]; ok`.
push_key_at : SendQueue → Option ℕ → ℕ → ℕ → Bytes → SendQueue
unfolding poke push_back set_key
push_key_at q none key seq payload = poke (record (push_back q (key_frame key seq payload)) {
  keys = set_key q.keys key (some q.next_id);
})
push_key_at q (some h) key seq payload =
    if at_least seq (value_of h q.surface)
    then q
    else poke (record q { surface = set_value h (key_frame key seq payload) q.surface })

pub push_surface_key : SendQueue → ℕ → ℕ → Bytes → SendQueue
unfolding push_key_at
push_surface_key q key seq payload = push_key_at q (q.keys key) key seq payload

-- The loop `for key, e := range q.keys`, whose order Go leaves open. Each round looks at one key
-- alone: it removes that key's element, and the key, when the element is at or below `seq`.
pub is_swept : SendQueue → ℕ → Element → Bool
is_swept q seq e = elim (q.keys e.value.key) [
  | none ↦ false
  | some h ↦ h == e.handle && leb e.value.seq seq
]

pub sweep_elements : (Element → Bool) → List Element → List Element
sweep_elements p [] = []
sweep_elements p (e ∷ es) = let rest = sweep_elements p es in if p e then rest else e ∷ rest

pub sweep_key : SendQueue → ℕ → ℕ → Option ℕ
sweep_key q seq k = elim (q.keys k) [
  | none ↦ none
  | some h ↦ if at_most seq (value_of h q.surface) then none else some h
]

pub sweep : SendQueue → ℕ → SendQueue
unfolding is_swept sweep_elements sweep_key
sweep q seq = record q {
  surface = sweep_elements (is_swept q seq) q.surface;
  keys = sweep_key q seq;
}

-- `if q.layout != nil { q.surface.Remove(q.layout) }`
pub drop_layout : SendQueue → SendQueue
drop_layout q = elim q.layout [ none ↦ q | some h ↦ record q { surface = remove h q.surface } ]

is_newer_layout : SendQueue → ℕ → Bool
is_newer_layout q seq = elim q.layout [ none ↦ false | some h ↦ above seq (value_of h q.surface) ]

pub push_surface_layout : SendQueue → ℕ → Bytes → SendQueue
unfolding poke push_back sweep drop_layout is_newer_layout
push_surface_layout q seq payload =
    let kept = drop_layout (sweep q seq) in
    if is_newer_layout q seq
    then q
    else poke (record (push_back kept (layout_frame seq payload)) { layout = some kept.next_id })

-- `q.layout == e` and `q.keys[f.key] == e`
is_at : Option ℕ → ℕ → Bool
is_at none h = false
is_at (some g) h = g == h

unfoldable pub pop_surface : SendQueue → List Element → SendQueue × Option Bytes
unfolding is_at set_key
pop_surface q [] = (q, none)
pop_surface q (e ∷ es) = (
  (if e.value.layout
      then record q { surface = es; layout = if is_at q.layout e.handle then none else q.layout }
      else record q {
        surface = es;
        keys =
            if is_at (q.keys e.value.key) e.handle then set_key q.keys e.value.key none else q.keys;
      }),
  some e.value.payload,
)

unfoldable pub pop_lanes : SendQueue → List Bytes → SendQueue × Option Bytes
unfolding pop_surface
pop_lanes q [] = pop_surface q q.surface
pop_lanes q (payload ∷ rest) = (record q { state = rest }, some payload)

unfoldable pub pop : SendQueue → SendQueue × Option Bytes
unfolding pop_lanes
pop q = pop_lanes q q.state

pub depth : SendQueue → ℕ
depth q = length q.state + length q.surface
