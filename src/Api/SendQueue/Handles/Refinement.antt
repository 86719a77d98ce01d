-- ===== src/Api/SendQueue/Handles/Refinement.antt =====
-- sendqueue.go: its methods, handles and index included, against the lists of frames.
use cuebooth.Prelude.{
  ℕ, suc, ◌≡◌, refl, ◌∙◌, some, List, [], ◌∷◌, arith, leb, inl, inr, Bool-cases, ==_self, Bytes,
  length,
}
use cuebooth.Api.SendQueue.StateLane.{state-push_surface_key, state-push_surface_layout}
use cuebooth.Api.SendQueue.{
  Element, SendQueue, new_send_queue, set_key, push_surface_key, push_other, pop, pop_lanes,
  pop_surface, is_at, send_buffer,
}
use cuebooth.Api.SendQueue.Frames.{
  IsCoherent, Call, other, key_update, re_layout, take, Reply, answer, perform,
}
use cuebooth.Api.SendQueue.Handles.{
  frames, key_handle, layout_handle, Ascending, IsValid, NoKey-key_handle, NoLayout-layout_handle,
  Ascending-weaken,
}
use cuebooth.Api.SendQueue.Handles.Pushes.{view, push_surface_key_lem, push_surface_layout_lem}

pop_surface_lem :
    (q : SendQueue) (e : Element) (es : List Element)
    → ((k : ℕ) → q.keys k ≡ key_handle k (e ∷ es))
    → q.layout ≡ layout_handle (e ∷ es)
    → Ascending 0 q.next_id (e ∷ es)
    → IsCoherent (frames (e ∷ es))
    → let q' = (pop_surface q (e ∷ es)).0 in
      IsValid q' × (view q' ≡ record { state = q.state; surface = frames es })
unfolding pop_surface is_at set_key
pop_surface_lem q e es keyed laid ordered coherent =
    let below = Ascending-weaken (suc e.handle) 0 q.next_id es (omega arith) ordered.1 in
    elim (Bool-cases e.value.layout) [
      | inl l ↦
          let gone = NoLayout-layout_handle es (coherent.1 l) in
          rw l (
            (
              record {
                keyed = λ k. ground (arith, keyed k);
                laid = ground (arith, ==_self e.handle);
                ordered = below;
                coherent = coherent.2;
              },
              refl,
            ))
      | inr r ↦
          let gone = NoKey-key_handle e.value.key es (coherent.0 r).0 in
          let held : q.keys e.value.key ≡ some e.handle =
            ground (arith, keyed e.value.key, ==_self e.value.key) in
          rw (r, held, ==_self e.handle)
            ((
              record {
                keyed = λ k. ground (arith, keyed k);
                laid = ground arith;
                ordered = below;
                coherent = coherent.2;
              },
              refl,
            ))
    ]

-- One call does on handles what its specification does on frames, with the same reply.
abbrev pub Refines : SendQueue → Call → Type 0
Refines q c =
    IsValid (perform q c).0
    × (view (perform q c).0 ≡ (answer (view q) c).0)
    × ((perform q c).1 ≡ (answer (view q) c).1)

pop_lanes_surface :
    (q : SendQueue) (es : List Element)
    → IsValid q
    → q.surface ≡ es
    → q.state ≡ []
    → let (q', frame) = pop_surface q es in
      IsValid q'
      × (view q' ≡ (answer (record { state = []; surface = frames es }) take).0)
      × (Reply.popped frame ≡ (answer (record { state = []; surface = frames es }) take).1)
unfolding answer
pop_lanes_surface q [] v at idle = unfold pop_surface in (v, rw (at, idle) refl, refl)
pop_lanes_surface q (e ∷ es) v at idle =
    let step =
      pop_surface_lem q e es (λ k. rw at at (v.keyed k)) (rw at at (v.laid)) (rw at at (v.ordered))
        (rw at at (v.coherent)) in
    (step.0, step.1 ∙ rw idle refl, unfold pop_surface in refl)

pop_lanes-Refines :
    (q : SendQueue) (waiting : List Bytes)
    → IsValid q
    → q.state ≡ waiting
    → let (q', frame) = pop_lanes q waiting in
      IsValid q'
      × (view q' ≡ (answer (record { state = waiting; surface = frames q.surface }) take).0)
      × (Reply.popped frame
          ≡ (answer (record { state = waiting; surface = frames q.surface }) take).1)
unfolding pop_lanes answer
pop_lanes-Refines q [] v e = pop_lanes_surface q q.surface v refl e
pop_lanes-Refines q (payload ∷ rest) v e = (
  record { keyed = v.keyed; laid = v.laid; ordered = v.ordered; coherent = v.coherent },
  refl,
  refl,
)

push_other-Refines : (q : SendQueue) (payload : Bytes) → IsValid q → Refines q (other payload)
unfolding perform push_other answer
push_other-Refines q payload v = elim (Bool-cases (leb send_buffer (length q.state))) [
  | inl full ↦ rw full ((v, refl, refl))
  | inr room ↦ rw room (
      (
        record { keyed = v.keyed; laid = v.laid; ordered = v.ordered; coherent = v.coherent },
        refl,
        refl,
      ))
]

-- From a valid queue every method keeps the queue valid, and does and returns what the two lists of
-- frames say.
pub perform-Refines : (q : SendQueue) (c : Call) → IsValid q → Refines q c
unfolding perform answer push_surface_key
perform-Refines q (other payload) v = push_other-Refines q payload v
perform-Refines q (key_update key seq payload) v =
    let step = push_surface_key_lem q key seq payload v in
    (
      step.0,
      λ i. record { state = state-push_surface_key q key seq payload i; surface = step.1 i },
      refl,
    )
perform-Refines q (re_layout seq payload) v =
    let step = push_surface_layout_lem q seq payload v in
    (
      step.0,
      λ i. record { state = state-push_surface_layout q seq payload i; surface = step.1 i },
      refl,
    )
perform-Refines q take v = unfold pop in pop_lanes-Refines q q.state v refl

pub new_send_queue-IsValid : IsValid new_send_queue
unfolding new_send_queue
new_send_queue-IsValid = record {
  keyed = λ k. refl;
  laid = refl;
  ordered = omega arith;
  coherent = tt;
}
