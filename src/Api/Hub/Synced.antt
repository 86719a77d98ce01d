-- ===== src/Api/Hub/Synced.antt =====
-- hub.go, store.go, client.go's sendSnapshot and the client's AppState together: one connection with
-- its store. The frames in flight are the queue's state lane.
use cuebooth.Prelude.{
  ℕ, ◌≡◌, refl, ap, ◌∙◌, Option, none, some, List, [], ◌∷◌, ◌++◌, leb, Bytes, length, Bool-cases,
  Option-cases, inl, inr,
}
use cuebooth.State.Json.{Object}
use cuebooth.State.AppState.{AppState, apply_snapshot, apply_delta}
use cuebooth.State.Store.{Result, delta_for, receive, receive_all}
use cuebooth.Api.SendQueue.{send_buffer, push_other, poke}
use cuebooth.Api.Connection.{ClientConn, close, close_at, queued}
use cuebooth.Api.Hub.{send_delta, send_deltas}

-- A frame that json.Unmarshal reads as `state` or `state-delta`.
pub data Message : Type 0 where
  state_message delta_message : ℕ → Object → Message

-- One frame more in the queue, or else the connection is closed.
pub queued_open :
    (c : ClientConn) (payload : Bytes)
    → let (c', effects) = queued c (push_other c.send payload) in
      c'.closing ≡ none
      → (c.closing ≡ none) × (c'.send.state ≡ c.send.state ++ payload ∷ []) × (c'.topics ≡ c.topics)
unfolding queued push_other poke close close_at
queued_open c payload = elim (Bool-cases (leb send_buffer (length c.send.state))) [
  | inl full ↦ elim (Option-cases c.closing) [
    | inl still ↦ rw (full, still) (λ e. cc)
    | inr (first, closed) ↦ rw (full, closed) (λ e. cc)
  ]
  | inr room ↦ rw room (λ e. (e, refl, refl))
]

pub queued-topics :
    (c : ClientConn) (payload : Bytes) → (queued c (push_other c.send payload)).0.topics ≡ c.topics
unfolding queued push_other poke close close_at
queued-topics c payload = elim (Bool-cases (leb send_buffer (length c.send.state))) [
  | inl full ↦ elim (Option-cases c.closing) [
    | inl still ↦ rw (full, still) refl
    | inr (first, closed) ↦ rw (full, closed) refl
  ]
  | inr room ↦ rw room refl
]

pub queued-hub :
    (c : ClientConn) (payload : Bytes) → (queued c (push_other c.send payload)).0.in_hub ≡ c.in_hub
unfolding queued push_other poke close close_at
queued-hub c payload = elim (Bool-cases (leb send_buffer (length c.send.state))) [
  | inl full ↦ elim (Option-cases c.closing) [
    | inl still ↦ rw (full, still) refl
    | inr (first, closed) ↦ rw (full, closed) refl
  ]
  | inr room ↦ rw room refl
]

module _ (read : Bytes → Option Message) where
  abbrev pub apply_message : AppState → Option Message → AppState
  apply_message a none = a
  apply_message a (some (state_message rev fields)) = apply_snapshot a rev fields
  apply_message a (some (delta_message rev patch)) = (apply_delta a rev patch).0

  -- What the client holds once it has read the frames.
  abbrev pub receive_frames : AppState → List Bytes → AppState
  receive_frames a [] = a
  receive_frames a (payload ∷ later) = receive_frames (apply_message a (read payload)) later

  pub receive_last :
      (a : AppState) (sent : List Bytes) (payload : Bytes)
      → receive_frames a (sent ++ payload ∷ [])
        ≡ apply_message (receive_frames a sent) (read payload)
  receive_last a [] payload = refl
  receive_last a (first ∷ sent) payload = receive_last (apply_message a (read first)) sent payload

  -- One frame more: the client will apply it to what it would hold.
  pub one_more :
      (c : ClientConn) (a : AppState) (payload : Bytes)
      → let (c', effects) = queued c (push_other c.send payload) in
        c'.closing ≡ none
        → (c.closing ≡ none)
          × (receive_frames a c'.send.state
              ≡ apply_message (receive_frames a c.send.state) (read payload))
  one_more c a payload up =
      let (before, sent, same) = queued_open c payload up in
      (before, ap (receive_frames a) sent ∙ receive_last a c.send.state payload)

  module _ (marshal_delta : ℕ → Object → Bytes)
      (read-marshal_delta : (rev : ℕ) (p : Object)
        → read (marshal_delta rev p) ≡ some (delta_message rev p)) where
    -- One result of an update.
    delta_received :
        (c : ClientConn) (a : AppState) (res : Result)
        → (send_delta marshal_delta c (delta_for c.topics res)).0.closing ≡ none
        → (c.closing ≡ none)
          × (receive_frames a (send_delta marshal_delta c (delta_for c.topics res)).0.send.state
              ≡ receive (receive_frames a c.send.state) (delta_for c.topics res))
    unfolding send_delta receive
    delta_received c a res up = elim (Option-cases (delta_for c.topics res)) [
      | inl passed ↦ rw passed (rw passed at up, refl)
      | inr ((rev, patch), sent) ↦
          let (before, now) = one_more c a (marshal_delta rev patch) (rw sent at up) in
          rw (sent) (before, rw read-marshal_delta at now)
    ]

    send_delta-topics :
        (c : ClientConn) (d : Option (ℕ × Object))
        → (send_delta marshal_delta c d).0.topics ≡ c.topics
    unfolding send_delta
    send_delta-topics c none = refl
    send_delta-topics c (some (rev, patch)) = queued-topics c (marshal_delta rev patch)

    send_delta-hub :
        (c : ClientConn) (d : Option (ℕ × Object))
        → (send_delta marshal_delta c d).0.in_hub ≡ c.in_hub
    unfolding send_delta
    send_delta-hub c none = refl
    send_delta-hub c (some (rev, patch)) = queued-hub c (marshal_delta rev patch)

    pub send_deltas-hub :
        (c : ClientConn) (results : List Result)
        → (send_deltas marshal_delta c results).in_hub ≡ c.in_hub
    unfolding send_deltas
    send_deltas-hub c [] = refl
    send_deltas-hub c (res ∷ later) =
        send_deltas-hub (send_delta marshal_delta c (delta_for c.topics res)).0 later
        ∙ send_delta-hub c (delta_for c.topics res)

    pub send_deltas-topics :
        (c : ClientConn) (results : List Result)
        → (send_deltas marshal_delta c results).topics ≡ c.topics
    unfolding send_deltas
    send_deltas-topics c [] = refl
    send_deltas-topics c (res ∷ later) =
        send_deltas-topics (send_delta marshal_delta c (delta_for c.topics res)).0 later
        ∙ send_delta-topics c (delta_for c.topics res)

    pub deltas_received :
        (c : ClientConn) (a : AppState) (results : List Result)
        → (send_deltas marshal_delta c results).closing ≡ none
        → (c.closing ≡ none)
          × (receive_frames a (send_deltas marshal_delta c results).send.state
              ≡ receive_all c.topics (receive_frames a c.send.state) results)
    unfolding send_deltas receive_all
    deltas_received c a [] up = (up, refl)
    deltas_received c a (res ∷ later) up =
        let c' = (send_delta marshal_delta c (delta_for c.topics res)).0 in
        let (between, rest) = deltas_received c' a later up in
        let (before, now) = delta_received c a res between in
        (before, rw (send_delta-topics c (delta_for c.topics res), now) at rest)
