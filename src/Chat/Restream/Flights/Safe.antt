-- ===== src/Chat/Restream/Flights/Safe.antt =====
-- restream.go: the credential across a shutdown, and the refresh token of a request.
use cuebooth.Prelude.{
  ◌≡◌, ap, sym, ◌∙◌, subst, false, List, [], ◌∷◌, ◌==◌, arith, Bool-cases, inl, inr, ==→eq,
}
use cuebooth.Chat.Restream.{Tokens}
use cuebooth.Chat.Restream.Flights.{
  Phase, idle, looking, refreshing, authorizing, answered, saving, ending, World, Reach, drain,
  Drained, drained, gave_up, waiting, Wake, tick, expired,
}
use cuebooth.Chat.Restream.Flights.Fits.{in_flight, IsUnspent, IsSaved, Fits}
use cuebooth.Chat.Restream.Flights.Kept.{Reach-IsKept}

abbrev pub AllReached : List (World × Wake) → Type 0
AllReached [] = Unit
AllReached ((w, wake) ∷ l) = Reach w × AllReached l

-- With no request out the credential is in the file.
quiet-IsSaved :
    (p : Phase) (w : World)
    → in_flight p ≡ 0
    → Fits p w.provider w.spent
    → IsSaved w.provider w.spent
quiet-IsSaved idle w e h = h
quiet-IsSaved (looking t) w e (h, same) = h
quiet-IsSaved (refreshing t) w e h = absurd (omega (arith, e))
quiet-IsSaved authorizing w e h = h
quiet-IsSaved (answered b a) w e h = absurd (omega (arith, e))
quiet-IsSaved (saving t) w e h = absurd (omega (arith, e))
quiet-IsSaved ending w e h = h

settled-IsSaved :
    (w : World)
    → Reach w
    → w.is_lossy ≡ false
    → w.provider.token_calls ≡ 0
    → IsSaved w.provider w.spent
settled-IsSaved w r safe calls =
    let k = Reach-IsKept r in quiet-IsSaved w.phase w (sym k.counted ∙ calls) (k.fits safe)

abbrev world : (d : Drained) → World → World
world (drained w) v = w
world (gave_up w) v = w
world waiting v = v

same_world : {v w : World} → drained v ≡ drained w → v ≡ w
same_world {v} {w} h = ap (λ d. world d v) h

stopped :
    (v w : World)
    → Reach v
    → w.is_lossy ≡ false
    → v.provider.token_calls ≡ 0
    → drained v ≡ drained w
    → IsSaved w.provider w.spent
stopped v w r safe calls h =
    let same = same_world h in
    let reached = subst Reach same r in
    settled-IsSaved w reached safe (subst (λ u. u.provider.token_calls ≡ 0) same calls)

-- When Drain returns because it has read that no request is out, then, unless an answer to a request
-- that the platform had carried out was lost or a write failed, the token file holds the credential
-- that the provider holds, and the platform has not replaced it, whatever ran in between.
pub drain-IsSaved :
    (rounds : List (World × Wake)) (w : World)
    → AllReached rounds
    → w.is_lossy ≡ false
    → drain rounds ≡ drained w
    → (w.provider.stored ≡ w.provider.tok) × IsUnspent w.spent w.provider.tok
unfolding drain
drain-IsSaved [] w r safe h = absurd (cc h)
drain-IsSaved ((v, tick) ∷ rounds) w (r, rs) safe h =
    elim (Bool-cases (v.provider.token_calls == 0)) [
      | inl e ↦ stopped v w r safe (==→eq _ _ e) (rw e at h)
      | inr e ↦ drain-IsSaved rounds w rs safe (rw e at h)
    ]
drain-IsSaved ((v, expired) ∷ rounds) w (r, rs) safe h =
    elim (Bool-cases (v.provider.token_calls == 0)) [
      | inl e ↦ stopped v w r safe (==→eq _ _ e) (rw e at h)
      | inr e ↦ absurd (cc (rw e at h))
    ]

-- While a refresh is out, and no answer or write was lost before, tokenCalls counts it alone, and it
-- carries the token that the provider holds and that the platform has not replaced.
pub refresh-IsUnspent :
    (w : World) (t : Tokens)
    → Reach w
    → w.is_lossy ≡ false
    → w.phase ≡ refreshing t
    → (w.provider.token_calls ≡ 1) × ((t ≡ w.provider.tok) × IsUnspent w.spent t)
refresh-IsUnspent w t r safe e =
    let k = Reach-IsKept r in
    let (saved, same) = subst (λ p. Fits p w.provider w.spent) e (k.fits safe) in
    (k.counted ∙ ap in_flight e, (same.0, rw same.0 saved.1))
