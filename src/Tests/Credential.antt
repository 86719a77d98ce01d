-- ===== src/Tests/Credential.antt =====
-- A refresh whose answer is written down, and the disk that it is written to.
use cuebooth.Prelude.{
  ℕ, ◌≡◌, ◌⊎◌, inr, refl, sym, ap, ◌∙◌, subst, true, false, Option, none, some, [], ◌∷◌, Bytes, pos,
  inl, inr, ◌⊎◌,
}
use cuebooth.Bytes.{bytes}
use cuebooth.Chat.Restream.{Tokens, Restream, Result, ok, err, authorized, valid}
use cuebooth.Chat.Restream.Exchanges.{
  Exchange, post_token, read_parsed, read_payload, add_seconds, is_positive, usable_token, save,
}
use cuebooth.Chat.Restream.Flights.{
  World, idle, refreshing, look, ask, renew, take, write, end, Reach, start, later, take_answer,
  take_refresh, drain, tick, answer_of, is_member,
}
use cuebooth.Chat.Restream.Flights.Fits.{IsUnspent}
use cuebooth.Chat.Restream.Flights.Safe.{drain-IsSaved, refresh-IsUnspent}
use cuebooth.Chat.Restream.Start.{Settings, started, new_restream, holding, restart_resumes}
use cuebooth.Chat.TokenStore as Store
use cuebooth.Chat.TokenStore.{Disk, Calls, File, is_dir_synced}
use cuebooth.Chat.TokenStore.Crash.{Visits, Survives, found, crash_safe}

abbrev old_tokens : Tokens
old_tokens = record {
  access_token = bytes "a1";
  refresh_token = bytes "r1";
  access_expiry = 0;
  refresh_expiry = 0;
  scope = [];
}

abbrev new_tokens : Tokens
new_tokens = record {
  access_token = bytes "a2";
  refresh_token = bytes "r2";
  access_expiry = 3600000000000;
  refresh_expiry = 0;
  scope = [];
}

abbrev renewal : Exchange
renewal = record {
  received = 0;
  answer = some (record {
    status = 200;
    error_name = [];
    body = some (record {
      access_token = bytes "a2";
      refresh_token = bytes "r2";
      expires_in = pos 3600;
      refresh_expires_in = pos 0;
      scope = [];
    });
  });
  written = true;
}

renewed : answer_of renewal ≡ ok new_tokens
unfolding post_token read_parsed read_payload add_seconds is_positive
renewed = refl

abbrev tokens_of : Result Tokens → Tokens
tokens_of (ok t) = t
tokens_of (err e) = old_tokens

abbrev world : World
world = record { provider = holding old_tokens; phase = idle; spent = []; is_lossy = false }

abbrev sent_world : World
sent_world = record world {
  provider = record (holding old_tokens) { token_calls = 1 };
  phase = refreshing old_tokens;
}

sent : Reach sent_world
unfolding authorized valid usable_token
sent =
    later (later (start world refl refl refl refl) (look world refl))
      (ask _ old_tokens [] 1 refl refl refl)

refresh-IsUnspent_example :
    (sent_world.provider.token_calls ≡ 1)
    × ((old_tokens ≡ sent_world.provider.tok) × IsUnspent sent_world.spent old_tokens)
refresh-IsUnspent_example = refresh-IsUnspent sent_world old_tokens sent refl refl

abbrev after : World
after = record world {
  provider = record (holding new_tokens) { stored = new_tokens };
  spent = bytes "r1" ∷ [];
}

finished : Reach after
unfolding take_answer take_refresh save
finished =
    later
      (later
        (later (later sent (renew sent_world old_tokens new_tokens renewal refl renewed refl))
          (take _ true (ok new_tokens) refl))
        (write _ new_tokens true refl))
      (end _ refl)

drain-IsSaved_example :
    (after.provider.stored ≡ after.provider.tok) × IsUnspent after.spent after.provider.tok
unfolding drain
drain-IsSaved_example =
    drain-IsSaved ((sent_world, tick) ∷ (after, tick) ∷ []) after (sent, (finished, tt)) refl refl

fresh :
    (t : Tokens) → answer_of renewal ≡ ok t → is_member t.refresh_token (bytes "r1" ∷ []) ≡ false
fresh t h =
    subst (λ (u : Tokens). is_member u.refresh_token (bytes "r1" ∷ []) ≡ false)
      (ap tokens_of (sym renewed ∙ h)) refl

abbrev calls : Calls
calls = record {
  makes_dir = true;
  creates = true;
  chmods = true;
  writes = true;
  partial = [];
  syncs = true;
  closes = true;
  renames = true;
  opens_dir = true;
  syncs_dir = true;
  removes = false;
}

abbrev disk : Disk
disk = record {
  target = some (record { content = bytes "old"; is_synced = true });
  reverts = [];
  temp = none;
}

abbrev calls_unsynced : Calls
calls_unsynced = record calls { syncs_dir = false }

abbrev renamed_disk : Disk
renamed_disk = record {
  target = some (record { content = bytes "new"; is_synced = true });
  reverts = disk.target ∷ [];
  temp = none;
}

visited :
    Visits renamed_disk (Store.save (bytes "/t") calls_unsynced (some (bytes "new")) disk).passed
unfolding Store.save Store.fill Store.publish
visited = inr (inr (inr (inr (inl refl))))

crash_safe_example :
    Survives disk (some (bytes "old"))
    ⊎ (◌≡◌ {A = Option Bytes} (some (bytes "old")) (some (bytes "new")))
crash_safe_example =
    crash_safe disk (bytes "new") (bytes "/t") calls_unsynced renamed_disk (some (bytes "old"))
      visited (inr (inl (λ h. refl)))

abbrev settings : Settings
settings = record {
  client_id = bytes "id";
  client_secret = bytes "secret";
  redirect_uri = bytes "http://booth/cb";
  token_file = bytes "/t";
}

abbrev encode : Tokens → Bytes
encode t = t.refresh_token

abbrev decode : Bytes → Option Tokens
decode text = some (record new_tokens { refresh_token = text })

abbrev saved_disk : Store.Saved
saved_disk = Store.save (bytes "/t") calls (some (bytes "r2")) disk

complete_save : saved_disk.error ≡ none
unfolding Store.save Store.fill Store.publish
complete_save = refl

left_by_crash : Survives saved_disk.last (some (bytes "r2"))
unfolding Store.save Store.fill Store.publish
left_by_crash = inl (λ h. refl)

restart_resumes_example :
    (r : Restream) × (new_restream settings decode (found (some (bytes "r2"))) ≡ started r)
    × (r.tok ≡ new_tokens)
    × ((now : ℕ) → authorized r now ≡ valid new_tokens now)
restart_resumes_example =
    restart_resumes encode decode settings disk new_tokens calls (some (bytes "r2")) refl refl refl
      refl complete_save refl left_by_crash
