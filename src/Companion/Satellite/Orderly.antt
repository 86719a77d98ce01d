-- ===== src/Companion/Satellite/Orderly.antt =====
-- satellite.go: the order that session and its teardown keep.
use cuebooth.Prelude.{◌≡◌, refl, sym, ◌∙◌, true, false, Option, none, some, List, [], Bytes, ap}
use cuebooth.Companion.Satellite.{
  Satellite, Effect, Error, set_session, end_session, register, ping_tick, write_next,
}
use cuebooth.Companion.Satellite.Lines.{read_line}
use cuebooth.Companion.Satellite.Session.{IsSound, Step-IsSound, Queue}
use cuebooth.Companion.Satellite.Session
use cuebooth.Companion.Satellite.Life.{
  Phase, between, opened, awaiting, live, in_session, World, verdict_of, offered, after_register,
  after_verdict, Step, dial, announce, read, stop_reading, judge, give_up, lose, tear_down, ping,
  press_key, write, Reach, start, later,
}
use cuebooth.Companion.Satellite.Stays.{Stays, enqueue-Stays, read-Stays, press-Stays, taken-Stays}

-- The order of a session: it is sound; it is connected exactly from the dial to the teardown; the
-- reader runs only within it; and no verdict is awaited once one has been given, nor in a live one.
pub record IsOrderly (w : World) : Type 0 where
  pub sound : IsSound w.satellite
  pub within : w.satellite.connected ≡ in_session w.phase
  pub reading : w.reads ≡ true → in_session w.phase ≡ true
  pub given : (v : Option Bytes) → w.heard ≡ some v → w.satellite.awaiting ≡ false
  pub accepted : w.phase ≡ live → w.satellite.awaiting ≡ false

-- A critical section that gives no verdict, within a session or without.
steady :
    (w : World) (s : Satellite)
    → Session.Step w.satellite s
    → Stays w.satellite (s, [])
    → IsOrderly w
    → IsOrderly (record w { satellite = s })
steady w s step stays o = record {
  sound = Step-IsSound step o.sound;
  within = stays.connected ∙ o.within;
  reading = o.reading;
  given = λ v h. stays.unasked (o.given v h);
  accepted = λ h. stays.unasked (o.accepted h);
}

offered_given :
    (w : World) (p : Satellite × List Effect) (v : Option Bytes) (held : Option (Option Bytes))
    → w.heard ≡ held
    → IsOrderly w
    → Stays w.satellite p
    → offered held (verdict_of p.1) ≡ some v
    → p.0.awaiting ≡ false
offered_given w p v none e o stays h = stays.answered v h
offered_given w p v (some first) e o stays h = stays.unasked (o.given first e)

after_verdict-live : (v : Option Bytes) → in_session (after_verdict v) ≡ true
after_verdict-live none = refl
after_verdict-live (some message) = refl

after_register-session :
    (e : Option Error) → (in_session (after_register e) ≡ true) × ¬ (after_register e ≡ live)
after_register-session none = (refl, λ h. cc)
after_register-session (some e) = (refl, λ h. cc)

phase_within : (w : World) (p : Phase) → w.phase ≡ p → in_session w.phase ≡ in_session p
phase_within w p e = ap in_session e

Step-IsOrderly : {v w : World} → Step v w → IsOrderly v → IsOrderly w
unfolding set_session end_session register ping_tick write_next
Step-IsOrderly (dial w at) o = record {
  sound = Step-IsSound (Session.opens (o.within ∙ phase_within w between at)) o.sound;
  within = refl;
  reading = λ h. refl;
  given = λ v h. cc;
  accepted = λ h. cc;
}
Step-IsOrderly (announce w at) o =
    let stays = enqueue-Stays w.satellite _ in
    let next = after_register-session (register w.satellite).1 in
    record {
      sound = Step-IsSound Session.registers o.sound;
      within = stays.connected ∙ (o.within ∙ (phase_within w opened at ∙ sym next.0));
      reading = λ h. next.0;
      given = λ v h. stays.unasked (o.given v h);
      accepted = λ h. absurd (next.1 h);
    }
Step-IsOrderly (read w line running) o =
    let p = read_line w.satellite line in
    let stays = read-Stays w.satellite line in
    record {
      sound = Step-IsSound (Session.reads line (o.within ∙ o.reading running)) o.sound;
      within = stays.connected ∙ o.within;
      reading = o.reading;
      given = λ v h. offered_given w p v w.heard refl o stays h;
      accepted = λ h. stays.unasked (o.accepted h);
    }
Step-IsOrderly (stop_reading w running) o = record {
  sound = o.sound;
  within = o.within;
  reading = λ h. cc;
  given = o.given;
  accepted = o.accepted;
}
Step-IsOrderly (judge w v at got) o = record {
  sound = o.sound;
  within = o.within ∙ (phase_within w awaiting at ∙ sym (after_verdict-live v));
  reading = λ h. after_verdict-live v;
  given = λ u h. cc;
  accepted = λ h. o.given v got;
}
Step-IsOrderly (give_up w at) o = record {
  sound = o.sound;
  within = o.within ∙ phase_within w awaiting at;
  reading = λ h. refl;
  given = o.given;
  accepted = λ h. cc;
}
Step-IsOrderly (lose w at silent) o = record {
  sound = o.sound;
  within = o.within ∙ phase_within w live at;
  reading = λ h. refl;
  given = o.given;
  accepted = λ h. cc;
}
Step-IsOrderly (tear_down w at silent) o = record {
  sound = Step-IsSound Session.ends o.sound;
  within = refl;
  reading = λ h. cc;
  given = λ v h. refl;
  accepted = λ h. cc;
}
Step-IsOrderly (ping w) o = steady w _ Session.pings (enqueue-Stays w.satellite _) o
Step-IsOrderly (press_key w ready key pressed) o =
    steady w _ (Session.presses ready key pressed) (press-Stays ready w.satellite key pressed) o
Step-IsOrderly (write w) o = steady w _ Session.writes (taken-Stays w.satellite w.satellite.out) o

-- However Run's sessions, the reader, the writer, the keepalives and the callers of Press interleave,
-- a satellite that starts sound with no session keeps its order: its state is sound; it is connected
-- exactly from a dial to the teardown; its reader runs only within a session, so no line reaches a
-- later one; a verdict that was given is no longer awaited; and a live session has had its verdict.
pub Reach-IsOrderly :
    {s : Satellite} {w : World} → IsSound s → s.connected ≡ false → Reach s w → IsOrderly w
Reach-IsOrderly sound apart start = record {
  sound = sound;
  within = apart;
  reading = λ h. cc;
  given = λ v h. cc;
  accepted = λ h. cc;
}
Reach-IsOrderly sound apart (later r step) = Step-IsOrderly step (Reach-IsOrderly sound apart r)
