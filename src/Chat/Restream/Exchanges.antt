-- ===== src/Chat/Restream/Exchanges.antt =====
-- restream.go: the token endpoint, Complete and accessToken.
use cuebooth.Prelude.{
  ℕ, ◌+◌, ◌-◌, ◌*◌, ◌^◌, ◌%◌, suc, Bool, true, false, not, ◌&&◌, ◌||◌, Option, none, some, List, [],
  ◌∷◌, ◌++◌, ltb, ◌==◌, if◌then◌else◌, Bytes, ℤ, pos, negsuc,
}
use cuebooth.Bytes.{bytes, equal, split}
use cuebooth.Table.{lookup, delete}
use cuebooth.Chat.Restream.{
  Tokens, no_tokens, PendingLogin, Restream, Error, no_code, unknown_state, unavailable,
  invalid_grant, missing_scope, needs_auth, Result, ok, err, second, refresh_skew,
  assumed_access_lifetime, authorized, prune_pending,
}

abbrev is_separator : ℕ → Bool
is_separator c = c == 32 || (c == 44 || (c == 9 || c == 10))

abbrev pub word : Bytes → List Bytes
word [] = []
word (c ∷ w) = (c ∷ w) ∷ []

-- strings.FieldsFunc at the separators, with the field so far.
fields_from : Bytes → Bytes → List Bytes
fields_from w [] = word w
fields_from w (c ∷ s) = elim (is_separator c) [
  | true ↦ word w ++ fields_from [] s
  | false ↦ fields_from (w ++ c ∷ []) s
]

pub scope_list : Bytes → List Bytes
scope_list scope = fields_from [] scope

last_of : Bytes → List Bytes → Bytes
last_of p [] = p
last_of p (q ∷ parts) = last_of q parts

reads_chat : List Bytes → Bool
reads_chat (p ∷ q ∷ parts) = equal p (bytes "chat") && equal (last_of q parts) (bytes "read")
reads_chat _ = false

any_reads_chat : List Bytes → Bool
any_reads_chat [] = false
any_reads_chat (g ∷ granted) = reads_chat (split 46 g) || any_reads_chat granted

pub grants_chat_read : Bytes → Bool
grants_chat_read scope = any_reads_chat (scope_list scope)

-- What the token endpoint's body holds, and how it answers: with a status, the error name that
-- restreamError reads, and the body, if it is parsed. `none` is a failure of the transport.
pub record Payload : Type 0 where
  pub access_token : Bytes
  pub refresh_token : Bytes
  pub expires_in : ℤ
  pub refresh_expires_in : ℤ
  pub scope : Bytes

pub record Response (A : Type 0) : Type 0 where
  pub status : ℕ
  pub error_name : Bytes
  pub body : Option A

unfoldable pub is_positive : ℤ → Bool
is_positive (pos (suc n)) = true
is_positive _ = false

-- `now.Add(time.Duration(n) * time.Second)` of a positive n, in an int64 of nanoseconds.
unfoldable pub add_seconds : ℕ → ℤ → ℕ
add_seconds now (negsuc n) = now
add_seconds now (pos n) =
    let d = n * second % 2 ^ 64 in if ltb d (2 ^ 63) then now + d else now - (2 ^ 64 - d)

unfoldable pub read_payload : ℕ → Payload → Result Tokens
read_payload now p =
    if equal p.access_token [] || equal p.refresh_token []
    then err unavailable
    else ok record {
      access_token = p.access_token;
      refresh_token = p.refresh_token;
      access_expiry =
          (if is_positive p.expires_in
            then add_seconds now p.expires_in
            else now + assumed_access_lifetime);
      refresh_expiry =
          (if is_positive p.refresh_expires_in then add_seconds now p.refresh_expires_in else 0);
      scope = p.scope;
    }

unfoldable pub read_parsed : ℕ → Option Payload → Result Tokens
read_parsed now none = err unavailable
read_parsed now (some p) = read_payload now p

-- postToken
unfoldable pub post_token : ℕ → Option (Response Payload) → Result Tokens
post_token now none = err unavailable
post_token now (some a) =
    if a.status == 200
    then read_parsed now a.body
    else if equal a.error_name (bytes "invalid_grant") && a.status == 400
    then err invalid_grant
    else err unavailable

-- `r.store.save(t)`, which fails or not.
unfoldable pub save : Tokens → Bool → Restream → Restream
save t written r = if written then record r { stored = t } else r

-- What adopt and discard do under mu.
abbrev pub take_up : Tokens → Bool → Restream → Restream
take_up t authorized r = record r {
  tok = t;
  refused_until = 0;
  gen = (if authorized then (r.gen + 1) % 2 ^ 64 else r.gen);
}

abbrev pub drop : Restream → Restream
drop r = record r { tok = no_tokens }

unfoldable pub adopt : Tokens → Bool → Bool → Restream → Restream
adopt t authorized written r = save t written (take_up t authorized r)

unfoldable pub discard : Bool → Restream → Restream
discard written r = save no_tokens written (drop r)

-- One token exchange: when its answer is read, the answer, and whether the file is then written.
pub record Exchange : Type 0 where
  pub received : ℕ
  pub answer : Option (Response Payload)
  pub written : Bool

-- Whether the granted scope is one that chat cannot use.
abbrev pub lacks_chat : Tokens → Bool
lacks_chat t = not (equal t.scope []) && not (grants_chat_read t.scope)

unfoldable pub exchanged : Restream → Exchange → Result Tokens → Restream × Option Error
exchanged r x (err e) = (r, some e)
exchanged r x (ok t) =
    if lacks_chat t then (r, some missing_scope) else (adopt t true x.written r, none)

unfoldable pub is_expired : Option PendingLogin → ℕ → Bool
is_expired none now = true
is_expired (some login) now = ltb login.expires now

-- Complete up to the exchange, under mu: the state is consumed.
abbrev pub consume : Restream → Bytes → ℕ → Restream
consume r state now = record r { pending = delete state (prune_pending now r.pending) }

-- Complete, with the time at its start and the exchange that it makes.
unfoldable pub complete : Restream → Bytes → Bytes → ℕ → Exchange → Restream × Option Error
complete r code state now x =
    if equal code []
    then (r, some no_code)
    else let pruned = prune_pending now r.pending in
      let consumed = consume r state now in
      if is_expired (lookup state pruned) now
      then (consumed, some unknown_state)
      else exchanged consumed x (post_token x.received x.answer)

-- usableToken
unfoldable pub usable_token : Restream → Bytes → ℕ → Bool
usable_token r retire now =
    authorized r now
    && (not (not (equal retire []) && equal retire r.tok.access_token)
        && (not (equal r.tok.access_token []) && ltb (now + refresh_skew) r.tok.access_expiry))

unfoldable pub refreshed : Restream → Exchange → Result Tokens → Restream × Result Bytes
refreshed r x (ok t) = (adopt t false x.written r, ok t.access_token)
refreshed r x (err invalid_grant) = (discard x.written r, err needs_auth)
refreshed r x (err e) = (r, err e)

-- accessToken, with the times at which usableToken and the holder of refreshMu read the clock.
unfoldable pub access_token : Restream → Bytes → ℕ → ℕ → Exchange → Restream × Result Bytes
access_token r retire asked held x =
    if usable_token r retire asked
    then (r, ok r.tok.access_token)
    else if not (authorized r held)
    then (r, err needs_auth)
    else if usable_token r retire held
    then (r, ok r.tok.access_token)
    else refreshed r x (post_token x.received x.answer)
