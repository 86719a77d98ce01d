-- ===== src/Chat/Restream/Flights/Kept.antt =====
-- restream.go: what the exchanges keep of the credential, under every interleaving.
use cuebooth.Prelude.{ℕ, ◌+◌, ◌-◌, ◌≡◌, refl, sym, ap, ◌∙◌, subst, Bool, true, false, not, ◌||◌, []}
use cuebooth.Chat.Restream.{Restream}
use cuebooth.Chat.Restream.Flights.{
  Phase, World, is_member, Step, look, leave, ask, send_code, renew, lose, refuse, grant, deny,
  take, write, end, start_login, consume_state, hold, Reach, start, later,
}
use cuebooth.Chat.Restream.Flights.Fits.{
  in_flight, Fits, has_refresh, take_answer-Fits, Agree, unchanged-Fits, login_url-Agree,
  hold_off-Agree, calls-take_answer, save-Fits, calls-save,
}

pub record IsKept (w : World) : Type 0 where
  pub counted : w.provider.token_calls ≡ in_flight w.phase
  pub blank : w.is_lossy ≡ false → is_member [] w.spent ≡ false
  pub fits : w.is_lossy ≡ false → Fits w.phase w.provider w.spent

unchanged-IsKept :
    (w : World) (s : Restream) → Agree w.provider s → IsKept w → IsKept (record w { provider = s })
unchanged-IsKept w s a k = record {
  counted = a.0 ∙ k.counted;
  blank = k.blank;
  fits = λ safe. unchanged-Fits w.phase w.provider s w.spent a (k.fits safe);
}

or_false : (a b : Bool) → (a || not b) ≡ false → (a ≡ false) × (b ≡ true)
or_false false true h = (refl, refl)
or_false true b h = cc
or_false false false h = cc

-- The phase of a world and what fits there.
at :
    (w : World) (p : Phase)
    → w.phase ≡ p
    → Fits w.phase w.provider w.spent
    → Fits p w.provider w.spent
at w p e h = subst (λ q. Fits q w.provider w.spent) e h

out :
    (w : World) (p : Phase)
    → w.phase ≡ p
    → w.provider.token_calls ≡ in_flight w.phase
    → w.provider.token_calls ≡ in_flight p
out w p e h = h ∙ ap in_flight e

pub Step-IsKept : {v w : World} → Step v w → IsKept v → IsKept w
Step-IsKept (look w e) k = record {
  counted = out w _ e k.counted;
  blank = k.blank;
  fits = λ safe. (at w _ e (k.fits safe), refl);
}
Step-IsKept (leave w t retire now e done) k = record {
  counted = out w _ e k.counted;
  blank = k.blank;
  fits = λ safe. (at w _ e (k.fits safe)).0;
}
Step-IsKept (ask w t retire now e holds stale) k = record {
  counted = ap (λ (n : ℕ). n + 1) (out w _ e k.counted);
  blank = k.blank;
  fits = λ safe.
      let (saved, same) = at w _ e (k.fits safe) in
      (saved, (same, has_refresh (record w.provider { tok = t }) now holds));
}
Step-IsKept (send_code w e) k = record {
  counted = ap (λ (n : ℕ). n + 1) (out w _ e k.counted);
  blank = k.blank;
  fits = λ safe. at w _ e (k.fits safe);
}
Step-IsKept (renew w sent t x e got fresh) k = record {
  counted = out w _ e k.counted;
  blank = λ safe. rw ((at w _ e (k.fits safe)).1.1) (k.blank safe);
  fits = λ safe. fresh;
}
Step-IsKept (lose w sent x error e got) k = record {
  counted = out w _ e k.counted;
  blank = λ safe. cc;
  fits = λ safe. cc;
}
Step-IsKept (refuse w sent x error e got) k = record {
  counted = out w _ e k.counted;
  blank = k.blank;
  fits = λ safe. (at w _ e (k.fits safe)).0;
}
Step-IsKept (grant w t x e got fresh) k = record {
  counted = out w _ e k.counted;
  blank = k.blank;
  fits = λ safe. (at w _ e (k.fits safe), fresh);
}
Step-IsKept (deny w x error e got) k = record {
  counted = out w _ e k.counted;
  blank = k.blank;
  fits = λ safe. at w _ e (k.fits safe);
}
Step-IsKept (take w b a e) k =
    let (calls, flight) = calls-take_answer b w.provider a in
    record {
      counted = calls ∙ (out w _ e k.counted ∙ sym flight);
      blank = k.blank;
      fits =
          λ safe. take_answer-Fits b w.provider w.spent a (k.blank safe) (at w _ e (k.fits safe));
    }
Step-IsKept (write w t written e) k = record {
  counted = calls-save t written w.provider ∙ out w _ e k.counted;
  blank = λ safe. k.blank (or_false w.is_lossy written safe).0;
  fits = λ safe.
      let (before, done) = or_false w.is_lossy written safe in
      save-Fits t written w.provider w.spent done (at w _ e (k.fits before));
}
Step-IsKept (end w e) k = record {
  counted = ap (λ (n : ℕ). n - 1) (out w _ e k.counted);
  blank = k.blank;
  fits = λ safe. at w _ e (k.fits safe);
}
Step-IsKept (start_login w state now) k =
    unchanged-IsKept w _ (login_url-Agree w.provider state now) k
Step-IsKept (consume_state w state now) k = unchanged-IsKept w _ (refl, (refl, refl)) k
Step-IsKept (hold w gen now) k = unchanged-IsKept w _ (hold_off-Agree w.provider gen now) k

pub Reach-IsKept : {w : World} → Reach w → IsKept w
Reach-IsKept (start w e calls saved spent) = record {
  counted = calls ∙ sym (ap in_flight e);
  blank = λ safe. rw spent refl;
  fits = λ safe. rw (e, spent) ((saved, refl));
}
Reach-IsKept (later r s) = Step-IsKept s (Reach-IsKept r)
