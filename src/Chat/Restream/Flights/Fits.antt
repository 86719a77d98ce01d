-- ===== src/Chat/Restream/Flights/Fits.antt =====
-- restream.go: how the credential fits the phase that the exchange in flight is in.
use cuebooth.Prelude.{
  ℕ, ◌≡◌, refl, sym, ◌∙◌, Bool, true, false, List, [], ◌==◌, Bytes, arith, Bool-cases, inl, inr,
}
use cuebooth.Bytes.{equal}
use cuebooth.Chat.Restream.{
  Tokens, Restream, Result, ok, err, authorized, valid, invalid_grant, no_code, unknown_state,
  unavailable, missing_scope, needs_auth, unauthorized, forbidden,
}
use cuebooth.Chat.Restream.Exchanges.{save, lacks_chat}
use cuebooth.Chat.Restream.Url.{hold_off}
use cuebooth.Chat.Restream.{login_url}
use cuebooth.Chat.Restream.Flights.{
  Phase, idle, looking, refreshing, authorizing, answered, saving, ending, is_member, take_refresh,
  take_authorization, take_answer,
}

-- The number of requests out in a phase.
abbrev pub in_flight : Phase → ℕ
in_flight idle = 0
in_flight (looking t) = 0
in_flight (refreshing t) = 1
in_flight authorizing = 1
in_flight (answered b a) = 1
in_flight (saving t) = 1
in_flight ending = 1

-- The platform has not replaced a credential.
abbrev pub IsUnspent : List Bytes → Tokens → Type 0
IsUnspent spent t = is_member t.refresh_token spent ≡ false

-- The file holds the credential that the provider holds, and that one is not spent.
abbrev pub IsSaved : Restream → List Bytes → Type 0
IsSaved r spent = (r.stored ≡ r.tok) × IsUnspent spent r.tok

abbrev pub FitsAnswer : Bool → Result Tokens → Restream → List Bytes → Type 0
FitsAnswer true (ok t) r spent = IsUnspent spent t
FitsAnswer false (ok t) r spent = IsSaved r spent × IsUnspent spent t
FitsAnswer b (err e) r spent = IsSaved r spent

abbrev pub Fits : Phase → Restream → List Bytes → Type 0
Fits idle r spent = IsSaved r spent
Fits (looking t) r spent = IsSaved r spent × (t ≡ r.tok)
Fits (refreshing t) r spent = IsSaved r spent × ((t ≡ r.tok) × (equal t.refresh_token [] ≡ false))
Fits authorizing r spent = IsSaved r spent
Fits (answered b a) r spent = FitsAnswer b a r spent
Fits (saving t) r spent = (r.tok ≡ t) × IsUnspent spent t
Fits ending r spent = IsSaved r spent

-- An authorized credential has a refresh token.
pub has_refresh :
    (r : Restream) (now : ℕ) → authorized r now ≡ true → equal r.tok.refresh_token [] ≡ false
unfolding authorized valid
has_refresh r now h = ground arith

take_refresh-Fits :
    (r : Restream) (spent : List Bytes) (a : Result Tokens)
    → is_member [] spent ≡ false
    → FitsAnswer true a r spent
    → Fits (take_refresh r a).1 (take_refresh r a).0 spent
unfolding take_refresh
take_refresh-Fits r spent (ok t) blank h = (refl, h)
take_refresh-Fits r spent (err invalid_grant) blank h = (refl, blank)
take_refresh-Fits r spent (err no_code) blank h = h
take_refresh-Fits r spent (err unknown_state) blank h = h
take_refresh-Fits r spent (err unavailable) blank h = h
take_refresh-Fits r spent (err missing_scope) blank h = h
take_refresh-Fits r spent (err needs_auth) blank h = h
take_refresh-Fits r spent (err unauthorized) blank h = h
take_refresh-Fits r spent (err forbidden) blank h = h

take_authorization-Fits :
    (r : Restream) (spent : List Bytes) (a : Result Tokens)
    → FitsAnswer false a r spent
    → Fits (take_authorization r a).1 (take_authorization r a).0 spent
unfolding take_authorization
take_authorization-Fits r spent (ok t) (saved, unspent) = elim (Bool-cases (lacks_chat t)) [
  | inl e ↦ rw e saved
  | inr e ↦ rw e ((refl, unspent))
]
take_authorization-Fits r spent (err e) h = h

pub take_answer-Fits :
    (b : Bool) (r : Restream) (spent : List Bytes) (a : Result Tokens)
    → is_member [] spent ≡ false
    → FitsAnswer b a r spent
    → Fits (take_answer b r a).1 (take_answer b r a).0 spent
unfolding take_answer
take_answer-Fits true r spent a blank h = take_refresh-Fits r spent a blank h
take_answer-Fits false r spent a blank h = take_authorization-Fits r spent a h

abbrev pub Agree : Restream → Restream → Type 0
Agree r s = (s.token_calls ≡ r.token_calls) × ((s.tok ≡ r.tok) × (s.stored ≡ r.stored))

unchanged-IsSaved :
    (r s : Restream) (spent : List Bytes) → Agree r s → IsSaved r spent → IsSaved s spent
unchanged-IsSaved r s spent (calls, (same, kept)) (saved, unspent) =
    (kept ∙ (saved ∙ sym same), rw same unspent)

pub unchanged-Fits :
    (p : Phase) (r s : Restream) (spent : List Bytes) → Agree r s → Fits p r spent → Fits p s spent
unchanged-Fits idle r s spent a h = unchanged-IsSaved r s spent a h
unchanged-Fits (looking t) r s spent a (h, e) = (unchanged-IsSaved r s spent a h, e ∙ sym a.1.0)
unchanged-Fits (refreshing t) r s spent a (h, (e, k)) =
    (unchanged-IsSaved r s spent a h, (e ∙ sym a.1.0, k))
unchanged-Fits authorizing r s spent a h = unchanged-IsSaved r s spent a h
unchanged-Fits (answered true (ok t)) r s spent a h = h
unchanged-Fits (answered true (err e)) r s spent a h = unchanged-IsSaved r s spent a h
unchanged-Fits (answered false (ok t)) r s spent a (h, u) = (unchanged-IsSaved r s spent a h, u)
unchanged-Fits (answered false (err e)) r s spent a h = unchanged-IsSaved r s spent a h
unchanged-Fits (saving t) r s spent a (e, u) = (a.1.0 ∙ e, u)
unchanged-Fits ending r s spent a h = unchanged-IsSaved r s spent a h

pub login_url-Agree : (r : Restream) (state : Bytes) (now : ℕ) → Agree r (login_url r state now)
unfolding login_url
login_url-Agree r state now = (refl, (refl, refl))

pub hold_off-Agree : (r : Restream) (gen now : ℕ) → Agree r (hold_off r gen now)
unfolding hold_off
hold_off-Agree r gen now = elim (Bool-cases (r.gen == gen)) [
  | inl e ↦ rw e ((refl, (refl, refl)))
  | inr e ↦ rw e ((refl, (refl, refl)))
]

calls-take_refresh :
    (r : Restream) (a : Result Tokens)
    → ((take_refresh r a).0.token_calls ≡ r.token_calls) × (in_flight (take_refresh r a).1 ≡ 1)
unfolding take_refresh
calls-take_refresh r (ok t) = (refl, refl)
calls-take_refresh r (err no_code) = (refl, refl)
calls-take_refresh r (err unknown_state) = (refl, refl)
calls-take_refresh r (err unavailable) = (refl, refl)
calls-take_refresh r (err invalid_grant) = (refl, refl)
calls-take_refresh r (err missing_scope) = (refl, refl)
calls-take_refresh r (err needs_auth) = (refl, refl)
calls-take_refresh r (err unauthorized) = (refl, refl)
calls-take_refresh r (err forbidden) = (refl, refl)

calls-take_authorization :
    (r : Restream) (a : Result Tokens)
    → ((take_authorization r a).0.token_calls ≡ r.token_calls)
      × (in_flight (take_authorization r a).1 ≡ 1)
unfolding take_authorization
calls-take_authorization r (err e) = (refl, refl)
calls-take_authorization r (ok t) = elim (Bool-cases (lacks_chat t)) [
  | inl e ↦ rw e ((refl, refl))
  | inr e ↦ rw e ((refl, refl))
]

pub calls-take_answer :
    (b : Bool) (r : Restream) (a : Result Tokens)
    → ((take_answer b r a).0.token_calls ≡ r.token_calls) × (in_flight (take_answer b r a).1 ≡ 1)
unfolding take_answer
calls-take_answer true r a = calls-take_refresh r a
calls-take_answer false r a = calls-take_authorization r a

pub save-Fits :
    (t : Tokens) (written : Bool) (r : Restream) (spent : List Bytes)
    → written ≡ true
    → Fits (saving t) r spent
    → Fits ending (save t written r) spent
unfolding save
save-Fits t true r spent e (held, unspent) = (sym held, rw held unspent)
save-Fits t false r spent e h = cc

pub calls-save :
    (t : Tokens) (written : Bool) (r : Restream) → (save t written r).token_calls ≡ r.token_calls
unfolding save
calls-save t true r = refl
calls-save t false r = refl
