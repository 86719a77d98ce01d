-- ===== src/Api/SendQueue/StateLane.antt =====
-- sendqueue.go: the lane of state frames and replies, which surface frames leave alone and which is
-- served first.
use cuebooth.Prelude.{
  ℕ, ◌≡◌, refl, ap, ◌⊎◌, inl, inr, Option, none, some, List, [], ◌∷◌, Bytes, arith,
}
use cuebooth.Api.SendQueue.{
  Element, SendQueue, push_key_at, push_surface_key, push_surface_layout, pop, pop_lanes,
  pop_surface,
}

state-push_key :
    (q : SendQueue) (o : Option ℕ) (key seq : ℕ) (payload : Bytes)
    → (push_key_at q o key seq payload).state ≡ q.state
unfolding push_key_at
state-push_key q none key seq payload = refl
state-push_key q (some h) key seq payload = ground arith

pub state-push_surface_key :
    (q : SendQueue) (key seq : ℕ) (payload : Bytes)
    → (push_surface_key q key seq payload).state ≡ q.state
unfolding push_surface_key
state-push_surface_key q key seq payload = state-push_key q (q.keys key) key seq payload

pub state-push_surface_layout :
    (q : SendQueue) (seq : ℕ) (payload : Bytes)
    → (push_surface_layout q seq payload).state ≡ q.state
unfolding push_surface_layout
state-push_surface_layout q seq payload = ground arith

abbrev payload_of : Bytes → Option Bytes → Bytes
payload_of b none = b
payload_of b (some p) = p

state-pop_surface : (q : SendQueue) (es : List Element) → (pop_surface q es).0.state ≡ q.state
unfolding pop_surface
state-pop_surface q [] = refl
state-pop_surface q (e ∷ es) = ground arith

-- What a pop of some payload takes from the lane.
popped_lanes :
    (q : SendQueue) (waiting : List Bytes) (payload : Bytes)
    → q.state ≡ waiting
    → (pop_lanes q waiting).1 ≡ some payload
    → (q.state ≡ payload ∷ (pop_lanes q waiting).0.state)
      ⊎ ((q.state ≡ []) × ((pop_lanes q waiting).0.state ≡ []))
unfolding pop_lanes
popped_lanes q [] payload e h = inr (e, rw (state-pop_surface q q.surface) e)
popped_lanes q (p ∷ rest) payload e h =
    let same : p ≡ payload = ap (payload_of payload) h in inl (rw e (rw same refl))

pub state-popped :
    (q : SendQueue) (payload : Bytes)
    → (pop q).1 ≡ some payload
    → (q.state ≡ payload ∷ (pop q).0.state) ⊎ ((q.state ≡ []) × ((pop q).0.state ≡ []))
unfolding pop
state-popped q payload h = popped_lanes q q.state payload refl h

empty_lanes :
    (q : SendQueue) (waiting : List Bytes)
    → q.state ≡ waiting
    → (pop_lanes q waiting).1 ≡ none
    → q.state ≡ []
unfolding pop_lanes
empty_lanes q [] e h = e
empty_lanes q (p ∷ rest) e h = absurd (cc h)

-- A queue that has nothing to give has no state frame.
pub state-drained : (q : SendQueue) → (pop q).1 ≡ none → q.state ≡ []
unfolding pop
state-drained q h = empty_lanes q q.state refl h
