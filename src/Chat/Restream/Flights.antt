-- ===== src/Chat/Restream/Flights.antt =====
-- restream.go: the token exchanges as other requests and the platform see them, step by step:
-- refreshMu, beginExchange and endExchange, and the loop of Drain. The goroutine that holds refreshMu
-- is the phase; the requests that take only mu run between any two of its steps. The platform
-- replaces a refresh token on receiving it, whether or not its answer arrives.
pub mod Kept
pub mod Fits
pub mod Safe
use cuebooth.Prelude.{
  ℕ, suc, ◌+◌, ◌-◌, ◌≡◌, Bool, true, false, not, ◌&&◌, ◌||◌, List, [], ◌∷◌, ◌==◌, if◌then◌else◌,
  Bytes,
}
use cuebooth.Bytes.{equal}
use cuebooth.Chat.Restream.{
  Tokens, no_tokens, Restream, Error, invalid_grant, needs_auth, Result, ok, err, authorized,
  login_url,
}
use cuebooth.Chat.Restream.Exchanges.{
  Exchange, post_token, take_up, drop, save, usable_token, consume, lacks_chat,
}
use cuebooth.Chat.Restream.Url.{hold_off}

-- The holder of refreshMu: it has read the credential; its request is out, for a refresh of that
-- credential or for an authorization; the answer has arrived; the new credential is held and its
-- write is due; the exchange is about to end.
pub data Phase : Type 0 where
  idle : Phase
  looking : Tokens → Phase
  refreshing : Tokens → Phase
  authorizing : Phase
  answered : Bool → Result Tokens → Phase
  saving : Tokens → Phase
  ending : Phase

-- `spent` are the refresh tokens that the platform has replaced; `is_lossy` says that an answer to a
-- request that it had carried out was lost, or a write failed.
pub record World : Type 0 where
  pub provider : Restream
  pub phase : Phase
  pub spent : List Bytes
  pub is_lossy : Bool

abbrev pub begin_exchange : Restream → Restream
begin_exchange r = record r { token_calls = r.token_calls + 1 }

abbrev pub end_exchange : Restream → Restream
end_exchange r = record r { token_calls = r.token_calls - 1 }

abbrev pub is_member : Bytes → List Bytes → Bool
is_member t [] = false
is_member t (s ∷ l) = equal s t || is_member t l

-- accessToken after its request.
unfoldable pub take_refresh : Restream → Result Tokens → Restream × Phase
take_refresh r (ok t) = (take_up t false r, saving t)
take_refresh r (err invalid_grant) = (drop r, saving no_tokens)
take_refresh r (err e) = (r, ending)

-- Complete after its request.
unfoldable pub take_authorization : Restream → Result Tokens → Restream × Phase
take_authorization r (ok t) = if lacks_chat t then (r, ending) else (take_up t true r, saving t)
take_authorization r (err e) = (r, ending)

unfoldable pub take_answer : Bool → Restream → Result Tokens → Restream × Phase
take_answer true r answer = take_refresh r answer
take_answer false r answer = take_authorization r answer

abbrev pub answer_of : Exchange → Result Tokens
answer_of x = post_token x.received x.answer

pub data Step : World → World → Type 0 where
  -- accessToken takes refreshMu and reads the credential.
  look : (w : World) → w.phase ≡ idle → Step w (record w { phase = looking w.provider.tok })
  -- It needs no request: there is nothing to refresh, or the token that is held will do.
  leave :
      (w : World) (t : Tokens) (retire : Bytes) (now : ℕ)
      → w.phase ≡ looking t
      → (not (authorized (record w.provider { tok = t }) now)
          || usable_token (record w.provider { tok = t }) retire now)
        ≡ true
      → Step w (record w { phase = idle })
  ask :
      (w : World) (t : Tokens) (retire : Bytes) (now : ℕ)
      → w.phase ≡ looking t
      → authorized (record w.provider { tok = t }) now ≡ true
      → usable_token (record w.provider { tok = t }) retire now ≡ false
      → Step w (record w { provider = begin_exchange w.provider; phase = refreshing t })
  -- Complete takes refreshMu and sends the code.
  send_code :
      (w : World)
      → w.phase ≡ idle
      → Step w (record w { provider = begin_exchange w.provider; phase = authorizing })
  -- The platform replaces the pair, and the answer is read.
  renew :
      (w : World) (sent t : Tokens) (x : Exchange)
      → w.phase ≡ refreshing sent
      → answer_of x ≡ ok t
      → is_member t.refresh_token (sent.refresh_token ∷ w.spent) ≡ false
      → Step w (record w { phase = answered true (ok t); spent = sent.refresh_token ∷ w.spent })
  -- It replaces the pair, and the answer does not arrive or cannot be read.
  lose :
      (w : World) (sent : Tokens) (x : Exchange) (e : Error)
      → w.phase ≡ refreshing sent
      → answer_of x ≡ err e
      → Step w (record w {
        phase = answered true (err e);
        spent = sent.refresh_token ∷ w.spent;
        is_lossy = true;
      })
  -- The request fails without effect.
  refuse :
      (w : World) (sent : Tokens) (x : Exchange) (e : Error)
      → w.phase ≡ refreshing sent
      → answer_of x ≡ err e
      → Step w (record w { phase = answered true (err e) })
  grant :
      (w : World) (t : Tokens) (x : Exchange)
      → w.phase ≡ authorizing
      → answer_of x ≡ ok t
      → is_member t.refresh_token w.spent ≡ false
      → Step w (record w { phase = answered false (ok t) })
  deny :
      (w : World) (x : Exchange) (e : Error)
      → w.phase ≡ authorizing
      → answer_of x ≡ err e
      → Step w (record w { phase = answered false (err e) })
  -- The mu section of adopt or discard, or the return with an error.
  take :
      (w : World) (is_refresh : Bool) (answer : Result Tokens)
      → w.phase ≡ answered is_refresh answer
      → Step w (record w {
        provider = (take_answer is_refresh w.provider answer).0;
        phase = (take_answer is_refresh w.provider answer).1;
      })
  write :
      (w : World) (t : Tokens) (written : Bool)
      → w.phase ≡ saving t
      → Step w (record w {
        provider = save t written w.provider;
        phase = ending;
        is_lossy = w.is_lossy || not written;
      })
  end :
      (w : World)
      → w.phase ≡ ending
      → Step w (record w { provider = end_exchange w.provider; phase = idle })
  -- What takes only mu: LoginURL, the beginning of Complete, and holdOff.
  start_login :
      (w : World) (state : Bytes) (now : ℕ)
      → Step w (record w { provider = login_url w.provider state now })
  consume_state :
      (w : World) (state : Bytes) (now : ℕ)
      → Step w (record w { provider = consume w.provider state now })
  hold : (w : World) (gen now : ℕ) → Step w (record w { provider = hold_off w.provider gen now })

-- The provider starts with the credential of its file and with no request out.
pub data Reach : World → Type 0 where
  start :
      (w : World)
      → w.phase ≡ idle
      → w.provider.token_calls ≡ 0
      → w.provider.stored ≡ w.provider.tok
      → w.spent ≡ []
      → Reach w
  later : {v w : World} → Reach v → Step v w → Reach w

-- What Drain meets in a round when requests are still out.
pub data Wake : Type 0 where
  tick expired : Wake

pub data Drained : Type 0 where
  drained gave_up : World → Drained
  waiting : Drained

-- Drain, which reads the count in one world after another.
unfoldable pub drain : List (World × Wake) → Drained
drain [] = waiting
drain ((w, wake) ∷ rest) =
    let later = drain rest in
    if w.provider.token_calls == 0
    then drained w
    else elim wake [ tick ↦ later | expired ↦ gave_up w ]
