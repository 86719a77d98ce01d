-- ===== src/Api/Connection/Later.antt =====
-- client.go: what a step of a connection keeps of its queue, its close and its held keys.
use cuebooth.Prelude.{
  ℕ, ◌≡◌, refl, sym, ◌∙◌, subst, Bool, true, false, Option, none, some, List, [], ◌∷◌, ◌++◌, ◌⊎◌,
  Bytes, Option-cases, Bool-cases, inl, inr, leb, length,
}
use cuebooth.Api.Dispatch.{protocol}
use cuebooth.Api.SendQueue.{SendQueue, push_other, send_buffer, poke}
use cuebooth.Api.Connection.{
  ClientConn, Frame, Effect, StatusCode, invalid_payload, close, close_at, queued, error_frame,
  applied, pressed, closed_now,
}

-- The calls of the satellite's Press among some effects, the newest first.
abbrev pub calls_onto : List (ℕ × Bool) → List Effect → List (ℕ × Bool)
calls_onto calls [] = calls
calls_onto calls (applied mutate ∷ later) = calls_onto calls later
calls_onto calls (pressed key down ∷ later) = calls_onto ((key, down) ∷ calls) later
calls_onto calls (closed_now ∷ later) = calls_onto calls later

abbrev pub Silent : List Effect → Type 0
Silent [] = Unit
Silent (applied mutate ∷ later) = Silent later
Silent (pressed key down ∷ later) = ⊥
Silent (closed_now ∷ later) = Silent later

pub calls_onto-Silent :
    (calls : List (ℕ × Bool)) (es : List Effect) → Silent es → calls_onto calls es ≡ calls
calls_onto-Silent calls [] s = refl
calls_onto-Silent calls (applied mutate ∷ es) s = calls_onto-Silent calls es s
calls_onto-Silent calls (pressed key down ∷ es) s = absurd s
calls_onto-Silent calls (closed_now ∷ es) s = calls_onto-Silent calls es s

pub join-Silent : (es fs : List Effect) → Silent es → Silent fs → Silent (es ++ fs)
join-Silent [] fs s t = t
join-Silent (applied mutate ∷ es) fs s t = join-Silent es fs s t
join-Silent (pressed key down ∷ es) fs s t = absurd s
join-Silent (closed_now ∷ es) fs s t = join-Silent es fs s t

abbrev pub Member : Bytes → List Bytes → Type 0
Member b [] = ⊥
Member b (p ∷ ps) = (b ≡ p) ⊎ Member b ps

member_append : (b : Bytes) (s t : List Bytes) → Member b s → Member b (s ++ t)
member_append b [] t h = absurd h
member_append b (p ∷ s) t (inl e) = inl e
member_append b (p ∷ s) t (inr h) = inr (member_append b s t h)

pub member_last : (b : Bytes) (s : List Bytes) → Member b (s ++ b ∷ [])
member_last b [] = inl refl
member_last b (p ∷ s) = inr (member_last b s)

-- A close with a handshake has the code 1007, and its reason has been told, as `T` says.
abbrev pub Fine : Option (StatusCode × Bytes × Bool) → Type 0 → Type 0
Fine none T = Unit
Fine (some (code, reason, false)) T = Unit
Fine (some (code, reason, true)) T = (code ≡ invalid_payload) × T

pub fine_map :
    (o : Option (StatusCode × Bytes × Bool)) {S T : Type 0} → (S → T) → Fine o S → Fine o T
fine_map none f h = tt
fine_map (some (code, reason, false)) f h = tt
fine_map (some (code, reason, true)) f (e, h) = (e, f h)

module _ (marshal : Frame → Bytes) where
  abbrev pub told : Bytes
  told = marshal (error_frame protocol)

  -- From `c` to `d` no queued frame is lost, and a close that is new is fine.
  pub record Later (c d : ClientConn) : Type 0 where
    pub kept : (b : Bytes) → Member b c.send.state → Member b d.send.state
    pub closes :
        (d.closing ≡ c.closing) ⊎ ((c.closing ≡ none) × Fine d.closing (Member told d.send.state))

  pub same_later :
      (c d : ClientConn) → d.send.state ≡ c.send.state → d.closing ≡ c.closing → Later c d
  same_later c d s e = record { kept = λ b h. subst (Member b) (sym s) h; closes = inl e }

  pub then_later : {c d e : ClientConn} → Later c d → Later d e → Later c e
  then_later {c} {d} {e} p q = record {
    kept = λ b h. q.kept b (p.kept b h);
    closes = chain p.closes q.closes;
  }
    where
      chain :
          (d.closing ≡ c.closing) ⊎ ((c.closing ≡ none) × Fine d.closing (Member told d.send.state))
          → (e.closing ≡ d.closing)
            ⊎ ((d.closing ≡ none) × Fine e.closing (Member told e.send.state))
          → (e.closing ≡ c.closing)
            ⊎ ((c.closing ≡ none) × Fine e.closing (Member told e.send.state))
      chain (inl a) (inl b) = inl (b ∙ a)
      chain (inl a) (inr (b, f)) = inr (sym a ∙ b, f)
      chain (inr (a, f)) (inl b) = inr (
        a,
        subst (λ o. Fine o (Member told e.send.state)) (sym b) (fine_map d.closing (q.kept told) f),
      )
      chain (inr (a, f)) (inr (b, g)) = inr (a, g)

  -- A step of the connection that presses nothing and leaves the held keys.
  pub record Quiet (c : ClientConn) (p : ClientConn × List Effect) : Type 0 where
    pub later : Later c p.0
    pub held : p.0.held_surface_keys ≡ c.held_surface_keys
    pub silent : Silent p.1

  pub close_quiet :
      (c : ClientConn) (code : StatusCode) (reason : Bytes) → Quiet c (close c code reason false)
  unfolding close close_at
  close_quiet c code reason = elim (Option-cases c.closing) [
    | inl still ↦ rw still (record {
      later = record { kept = λ b h. h; closes = inr (refl, tt) };
      held = refl;
      silent = tt;
    })
    | inr (was, e) ↦ rw e (record { later = same_later _ _ refl refl; held = refl; silent = tt })
  ]

  pub queued_quiet : (c : ClientConn) (b : Bytes) → Quiet c (queued c (push_other c.send b))
  unfolding queued push_other poke
  queued_quiet c b = elim (Bool-cases (leb send_buffer (length c.send.state))) [
    | inl full ↦ rw full (close_quiet c _ _)
    | inr room ↦ rw room (record {
      later = record { kept = λ m h. member_append m c.send.state _ h; closes = inl refl };
      held = refl;
      silent = tt;
    })
  ]

  pub surface_later :
      (c : ClientConn) (q : SendQueue) → q.state ≡ c.send.state → Later c (record c { send = q })
  surface_later c q e = same_later c _ e refl

  pub unchanged : (c : ClientConn) → Quiet c (c, [])
  unchanged c = record { later = same_later c c refl refl; held = refl; silent = tt }

  pub full_close :
      (c : ClientConn) (code : StatusCode) (reason : Bytes)
      → (close c code reason false).0.closing ≡ none
      → ⊥
  unfolding close close_at
  full_close c code reason h = elim (Option-cases c.closing) [
    | inl still ↦ cc (rw still at h)
    | inr (was, e) ↦ cc (rw e at h)
  ]
