-- ===== src/Chat/Restream/Refusals.antt =====
-- restream.go: URL, and a platform that refuses the credential.
use cuebooth.Prelude.{
  ℕ, ◌+◌, ◌<◌, ◌≡◌, refl, ◌∙◌, Bool, true, false, not, ◌&&◌, lt→ltb, ==_self, Bytes, [], Bool-cases,
  inl, inr,
}
use cuebooth.Chat.Restream.{
  Restream, Tokens, Result, ok, err, needs_auth, invalid_grant, unavailable, no_code, unknown_state,
  missing_scope, unauthorized, forbidden, authorized, valid, refusal_cooldown, no_tokens,
}
use cuebooth.Chat.Restream.Exchanges.{
  Exchange, adopt, save, discard, refreshed, access_token, usable_token, post_token,
}
use cuebooth.Chat.Restream.Url.{
  Attempt, fetch_with, mint, hold_off, is_refused, is_unauthorized, settle, answer_of, retried, url,
}

gen-save : (t : Tokens) (written : Bool) (r : Restream) → (save t written r).gen ≡ r.gen
unfolding save
gen-save t true r = refl
gen-save t false r = refl

gen-refreshed :
    (r : Restream) (x : Exchange) (answer : Result Tokens) → (refreshed r x answer).0.gen ≡ r.gen
unfolding refreshed adopt discard
gen-refreshed r x (ok t) = gen-save t x.written _
gen-refreshed r x (err invalid_grant) = gen-save no_tokens x.written _
gen-refreshed r x (err no_code) = refl
gen-refreshed r x (err unknown_state) = refl
gen-refreshed r x (err unavailable) = refl
gen-refreshed r x (err missing_scope) = refl
gen-refreshed r x (err needs_auth) = refl
gen-refreshed r x (err unauthorized) = refl
gen-refreshed r x (err forbidden) = refl

gen-access_token :
    (r : Restream) (retire : Bytes) (asked held : ℕ) (x : Exchange)
    → (access_token r retire asked held x).0.gen ≡ r.gen
unfolding access_token
gen-access_token r retire asked held x = elim (Bool-cases (usable_token r retire asked)) [
  | inl usable ↦ rw usable refl
  | inr spent ↦ elim (Bool-cases (not (authorized r held))) [
    | inl lapsed ↦ rw (spent, lapsed) refl
    | inr holds ↦ elim (Bool-cases (usable_token r retire held)) [
      | inl fresh ↦ rw (spent, holds, fresh) refl
      | inr stale ↦ rw (spent, holds, stale) (gen-refreshed r x (post_token x.received x.answer))
    ]
  ]
]

gen-fetch_with :
    (a : Attempt) (r : Restream) (answer : Result Bytes) → (fetch_with a (r, answer)).0.gen ≡ r.gen
unfolding fetch_with
gen-fetch_with a r (ok token) = refl
gen-fetch_with a r (err e) = refl

gen-mint : (r : Restream) (retire : Bytes) (a : Attempt) → (mint r retire a).0.gen ≡ r.gen
unfolding mint
gen-mint r retire a =
    let got = access_token r retire a.asked a.held a.exchange in
    gen-fetch_with a got.0 got.1 ∙ gen-access_token r retire a.asked a.held a.exchange

gen-retried :
    (a : Attempt) (r : Restream) (answer : Result Bytes) (used : Bytes)
    → (retried a (r, (answer, used))).0.gen ≡ r.gen
unfolding retried answer_of
gen-retried a r answer used = elim (Bool-cases (is_unauthorized answer)) [
  | inl refused ↦ rw refused (gen-mint r used a)
  | inr other ↦ rw other refl
]

and_false : (b : Bool) → (b && false) ≡ false
and_false true = refl
and_false false = refl

-- While the provider is held off it counts as unauthorized.
held_off :
    (r : Restream) (now t : ℕ)
    → t < now + refusal_cooldown
    → authorized (hold_off r r.gen now) t ≡ false
unfolding hold_off authorized
held_off r now t le =
    rw (==_self r.gen, lt→ltb t (now + refusal_cooldown) le) (and_false (valid r.tok t))

settled :
    (r : Restream) (answer : Result Bytes) (gen now t : ℕ)
    → r.gen ≡ gen
    → is_refused answer ≡ true
    → t < now + refusal_cooldown
    → ((settle gen now (r, answer)).1 ≡ err needs_auth)
      × (authorized (settle gen now (r, answer)).0 t ≡ false)
unfolding settle
settled r answer gen now t e refused le = rw (refused, ← e) ((refl, held_off r now t le))

-- If the platform still refuses the credential or its scope once URL has made its attempts, then the
-- caller is told that authorization is needed, and for the five minutes from then the provider
-- counts as unauthorized.
pub url_holds_off :
    (r : Restream) (first again : Attempt) (now t : ℕ)
    → is_refused (retried again (mint r [] first)).1 ≡ true
    → t < now + refusal_cooldown
    → ((url r first again now).1 ≡ err needs_auth)
      × (authorized (url r first again now).0 t ≡ false)
unfolding url
url_holds_off r first again now t refused le =
    let (minted, answer) = mint r [] first in
    let (last, result) = retried again (mint r [] first) in
    settled last result r.gen now t
      (gen-retried again minted answer.0 answer.1 ∙ gen-mint r [] first) refused le
