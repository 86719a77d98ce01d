-- ===== src/Api/Connection/Run/Writes.antt =====
-- client.go: what the writer takes from the queue, and how the socket ends.
use cuebooth.Prelude.{
  ◌≡◌, refl, ap, subst, Bool, true, false, Option, none, some, List, [], ◌∷◌, ◌⊎◌, inl, inr, Bytes,
}
use cuebooth.Api.SendQueue.{SendQueue, pop}
use cuebooth.Api.SendQueue.StateLane.{state-popped, state-drained}
use cuebooth.Api.Connection.{Frame, StatusCode}
use cuebooth.Api.Connection.Later.{Member, told}
use cuebooth.Api.Connection.Run.{Socket, handshake, close_socket}

module _ (marshal : Frame → Bytes) where
  pub taken :
      (q : SendQueue) (payload : Bytes) (written : List Bytes)
      → (pop q).1 ≡ some payload
      → Member (told marshal) q.state ⊎ Member (told marshal) written
      → Member (told marshal) (pop q).0.state ⊎ Member (told marshal) (payload ∷ written)
  taken q payload written e (inr m) = inr (inr m)
  taken q payload written e (inl m) = from (state-popped q payload e)
    where
      from :
          (q.state ≡ payload ∷ (pop q).0.state) ⊎ ((q.state ≡ []) × ((pop q).0.state ≡ []))
          → Member (told marshal) (pop q).0.state ⊎ Member (told marshal) (payload ∷ written)
      from (inl at) = sides (subst (Member (told marshal)) at m)
        where
          sides :
              Member (told marshal) (payload ∷ (pop q).0.state)
              → Member (told marshal) (pop q).0.state ⊎ Member (told marshal) (payload ∷ written)
          sides (inl same) = inr (inl same)
          sides (inr rest) = inl rest
      from (inr (empty, rest)) = absurd (subst (Member (told marshal)) empty m)

  pub only_written :
      (q : SendQueue) (written : List Bytes)
      → (pop q).1 ≡ none
      → Member (told marshal) q.state ⊎ Member (told marshal) written
      → Member (told marshal) written
  only_written q written e (inl m) = absurd (subst (Member (told marshal)) (state-drained q e) m)
  only_written q written e (inr m) = m

  pub shut_as :
      (o : Option (StatusCode × Bytes × Bool)) (code : StatusCode) (reason : Bytes)
      → close_socket o ≡ handshake code reason
      → o ≡ some (code, reason, true)
  shut_as none code reason h = absurd (cc h)
  shut_as (some (c, r, true)) code reason h =
      let same_code : c ≡ code = ap code_of h in
      let same_reason : r ≡ reason = ap reason_of h in rw (same_code, same_reason) refl
    where
      code_of : Socket → StatusCode
      code_of (handshake d q) = d
      code_of other = c

      reason_of : Socket → Bytes
      reason_of (handshake d q) = q
      reason_of other = r
  shut_as (some (c, r, false)) code reason h = absurd (cc h)
