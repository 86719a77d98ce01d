-- ===== src/Chat/Restream/Start.antt =====
-- restream.go: NewRestream, the text of LoginURL's URL, and restreamError. The encoding of a URL's
-- query, json.Unmarshal and what the token file reads as are arguments; the provider's options, which
-- only replace the collaborators that are arguments here, have no model but the API's base.
use cuebooth.Prelude.{
  ℕ, zero, suc, ◌≡◌, refl, true, false, ◌||◌, Option, none, some, List, [], ◌∷◌, ◌++◌, ◌==◌,
  if◌then◌else◌, Bytes, arith,
}
use cuebooth.Bytes.{bytes, equal, trim_right, trim_space}
use cuebooth.Chat.Restream.{Tokens, no_tokens, Restream, authorized, valid}
use cuebooth.Chat.TokenStore.{Disk, Calls, Read, Loaded, ok, failed, load, save, is_dir_synced}
use cuebooth.Chat.TokenStore.Crash.{Survives, found, save-load}

-- RestreamConfig
pub record Settings : Type 0 where
  pub client_id : Bytes
  pub client_secret : Bytes
  pub redirect_uri : Bytes
  pub token_file : Bytes

pub data StartError : Type 0 where
  no_client no_redirect : StartError

pub data Started : Type 0 where
  started : Restream → Started
  refused : StartError → Started

-- A file that cannot be read or parsed counts as one without a credential.
unfoldable pub resumed : Loaded → Tokens
resumed (ok t) = t
resumed (failed e) = no_tokens

abbrev pub holding : Tokens → Restream
holding t = record {
  tok = t;
  pending = [];
  pending_seq = 0;
  refused_until = 0;
  gen = 0;
  token_calls = 0;
  stored = t;
}

-- NewRestream
unfoldable pub new_restream : Settings → (Bytes → Option Tokens) → Read → Started
new_restream s decode r =
    if equal s.client_id [] || equal s.client_secret []
    then refused no_client
    else if equal s.redirect_uri []
    then refused no_redirect
    else started (holding (resumed (load decode s.token_file r)))

-- WithRestreamAPIBase
pub with_api_base : Bytes → Bytes → Bytes
with_api_base base old = if equal base [] then old else trim_right (λ (c : ℕ). c == 47) base

-- The URL that LoginURL returns.
pub login_target : (List (Bytes × Bytes) → Bytes) → Bytes → Settings → Bytes → Bytes
login_target encode api_base s state =
    api_base
    ++ bytes "/login?"
    ++ encode (
        (bytes "response_type", bytes "code")
        ∷ (bytes "client_id", s.client_id)
        ∷ (bytes "redirect_uri", s.redirect_uri)
        ∷ (bytes "state", state)
        ∷ [])

take : ℕ → Bytes → Bytes
take zero s = []
take (suc n) [] = []
take (suc n) (c ∷ s) = c ∷ take n s

-- restreamError, with the name and the message that the body's envelope holds.
pub restream_error : (Bytes → Option (Bytes × Bytes)) → Bytes → Bytes × Bytes
restream_error unmarshal body = elim (unmarshal body) [
  | none ↦ ([], trim_space (take 200 body))
  | some (name, message) ↦
      if equal message [] then ([], trim_space (take 200 body)) else (name, message)
]

-- A provider that has just started holds nothing off.
fresh_start : (t : Tokens) (now : ℕ) → authorized (holding t) now ≡ valid t now
unfolding authorized
fresh_start t now = ground arith

module _ (encode : Tokens → Bytes) (decode : Bytes → Option Tokens) (s : Settings) where
  -- If the decoding reads back what the encoding of a credential wrote, the settings are complete, and
  -- the credential was saved with no error and with the directory synced, then after a crash
  -- NewRestream starts with that credential and counts as authorized exactly while it is valid.
  pub restart_resumes :
      (d : Disk) (t : Tokens) (c : Calls) (left : Option Bytes)
      → decode (encode t) ≡ some t
      → (equal s.client_id [] || equal s.client_secret []) ≡ false
      → equal s.redirect_uri [] ≡ false
      → equal s.token_file [] ≡ false
      → (save s.token_file c (some (encode t)) d).error ≡ none
      → is_dir_synced c ≡ true
      → Survives (save s.token_file c (some (encode t)) d).last left
      → (r : Restream) × (new_restream s decode (found left) ≡ started r)
        × (r.tok ≡ t)
        × ((now : ℕ) → authorized r now ≡ valid t now)
  unfolding new_restream resumed
  restart_resumes d t c left round client redirect named saved synced h =
      let loads = save-load encode decode d s.token_file t c left round named saved synced h in
      (holding t, rw (client, redirect, loads) refl, refl, fresh_start t)
