-- ===== src/Companion/Client/Attempts.antt =====
-- How often a request is sent, and when again.
use cuebooth.Prelude.{
  ℕ, zero, suc, ◌+◌, ◌≤◌, ◌≡◌, refl, Bool, true, false, ◌&&◌, ◌||◌, not, Option, List, [], ◌∷◌, leb,
  Bytes, arith, length, inl, inr, Bool-cases,
}
use cuebooth.Companion.Client.{
  Method, post, Outcome, no_response, response, Error, Result, ok, err, Round, is_success,
  is_transient, attempt, failure, Run, send, after, loop, do_request,
}

-- Companion has answered, and has not acted.
pub data IsRefused : Outcome → Type 0 where
  refused :
      {status : ℕ} {body : Option Bytes}
      → is_transient status ≡ true
      → IsRefused (response status body)

-- All but the last request of a run satisfy `P`.
abbrev pub AllButLast : (Outcome → Type 0) → List Outcome → Type 0
AllButLast P [] = Unit {0}
AllButLast P (o ∷ []) = Unit {0}
AllButLast P (o ∷ p ∷ rest) = P o × AllButLast P (p ∷ rest)

loop_bound :
    (left n : ℕ) (method : Method) (rounds : ℕ → Round) (e : Error)
    → length (loop left n method rounds e).0 ≤ left
unfolding loop
loop_bound zero n method rounds e = omega arith
loop_bound (suc left) n method rounds e =
    let result = (attempt method (rounds n).outcome).1 in
    ground (arith, loop_bound left (suc n) method rounds (failure e result))

-- A request is sent at most once more than there are retries.
pub length-do_request :
    (max_retries : ℕ) (method : Method) (rounds : ℕ → Round)
    → length (do_request max_retries method rounds).0 ≤ max_retries + 1
unfolding do_request
length-do_request max_retries method rounds =
    omega (arith, loop_bound (suc max_retries) 0 method rounds Error.transport)

-- A failed POST that may be retried has been refused.
retryable_post : (o : Outcome) (e : Error) → attempt post o ≡ (true, err e) → IsRefused o
unfolding attempt
retryable_post no_response e h = ground arith
retryable_post (response status body) e h = refused (ground arith)

follow :
    (o : Outcome) (sent : List Outcome)
    → IsRefused o
    → AllButLast IsRefused sent
    → AllButLast IsRefused (o ∷ sent)
follow o [] p h = tt
follow o (x ∷ sent) p h = (p, h)

-- The requests that follow a first one are the rest of the loop, or none.
after-IsRefused :
    (r : Round) (rest : Run) (a : Bool × Result Bytes)
    → attempt post r.outcome ≡ a
    → AllButLast IsRefused rest.0
    → AllButLast IsRefused (r.outcome ∷ (after r a rest).0)
unfolding after
after-IsRefused r rest (retryable, ok body) e h = tt
after-IsRefused r rest (false, err x) e h = tt
after-IsRefused r rest (true, err x) e h = elim (Bool-cases r.done_after) [
  | inl done ↦ rw done tt
  | inr more ↦ rw more (follow r.outcome rest.0 (retryable_post r.outcome x e) h)
]

loop-IsRefused :
    (left n : ℕ) (rounds : ℕ → Round) (e : Error)
    → AllButLast IsRefused (loop left n post rounds e).0
unfolding loop
loop-IsRefused zero n rounds e = tt
loop-IsRefused (suc left) n rounds e = elim (Bool-cases (leb 1 n && (rounds n).sleep_cancelled)) [
  | inl cancelled ↦ rw cancelled tt
  | inr sent ↦ rw sent (after-IsRefused (rounds n) _ _ refl (loop-IsRefused left (suc n) rounds _))
]

-- A POST is sent again only after Companion has answered and refused: of the requests that one
-- call sends, every one but the last met a 5xx or a 429.
pub post_never_doubled :
    (max_retries : ℕ) (rounds : ℕ → Round)
    → AllButLast IsRefused (do_request max_retries post rounds).0
unfolding do_request
post_never_doubled max_retries rounds = loop-IsRefused (suc max_retries) 0 rounds Error.transport

-- The last request of a run met a 2xx status.
abbrev pub LastSucceeds : List Outcome → Type 0
LastSucceeds [] = ⊥
LastSucceeds (no_response ∷ []) = ⊥
LastSucceeds (response status body ∷ []) = is_success status ≡ true
LastSucceeds (o ∷ p ∷ rest) = LastSucceeds (p ∷ rest)

LastSucceeds-cons :
    (o : Outcome) (sent : List Outcome) → LastSucceeds sent → LastSucceeds (o ∷ sent)
LastSucceeds-cons o [] h = absurd h
LastSucceeds-cons no_response (p ∷ sent) h = h
LastSucceeds-cons (response status body) (p ∷ sent) h = h

attempt_succeeds :
    (method : Method) (o : Outcome) (b : Bool) (body : Bytes)
    → attempt method o ≡ (b, ok body)
    → LastSucceeds (o ∷ [])
unfolding attempt
attempt_succeeds method no_response b body e = ground arith
attempt_succeeds method (response status held) b body e = ground arith

after_succeeds :
    (method : Method) (r : Round) (rest : Run) (a : Bool × Result Bytes) (body : Bytes)
    → attempt method r.outcome ≡ a
    → (rest.1 ≡ ok body → LastSucceeds rest.0)
    → (after r a rest).1 ≡ ok body
    → LastSucceeds (r.outcome ∷ (after r a rest).0)
unfolding after
after_succeeds method r rest (retryable, ok held) body e ih h =
    attempt_succeeds method r.outcome retryable held e
after_succeeds method r rest (retryable, err x) body e ih h =
    elim (Bool-cases (not retryable || r.done_after)) [
      | inl stop ↦ absurd (cc (rw stop at h))
      | inr more ↦ rw more (LastSucceeds-cons r.outcome rest.0 (ih (rw more at h)))
    ]

loop_succeeds :
    (left n : ℕ) (method : Method) (rounds : ℕ → Round) (e : Error) (body : Bytes)
    → (loop left n method rounds e).1 ≡ ok body
    → LastSucceeds (loop left n method rounds e).0
unfolding loop send
loop_succeeds zero n method rounds e body h = absurd (cc h)
loop_succeeds (suc left) n method rounds e body h =
    elim (Bool-cases (leb 1 n && (rounds n).sleep_cancelled)) [
      | inl cancelled ↦ absurd (cc (rw cancelled at h))
      | inr sent ↦ rw sent (
          after_succeeds method (rounds n) _ _ body refl
            (loop_succeeds left (suc n) method rounds _ body) (rw sent at h))
    ]

-- A call that succeeds has sent a last request that Companion answered with a 2xx status.
pub do_request-LastSucceeds :
    (max_retries : ℕ) (method : Method) (rounds : ℕ → Round) (body : Bytes)
    → (do_request max_retries method rounds).1 ≡ ok body
    → LastSucceeds (do_request max_retries method rounds).0
unfolding do_request
do_request-LastSucceeds max_retries method rounds body h =
    loop_succeeds (suc max_retries) 0 method rounds Error.transport body h
