-- ===== src/Companion/Satellite/Life.antt =====
-- satellite.go: Run and session, step by step: Run's own goroutine, the reader, the keepalives, the
-- writer and the callers of Press. Whether a dial, a read or a write succeeds, and when a wait runs
-- out, is open; so the back-off and the deadlines have no steps of their own.
use cuebooth.Prelude.{ℕ, ◌≡◌, Bool, true, false, Option, none, some, List, [], ◌∷◌, Bytes}
use cuebooth.Companion.Satellite.{
  Satellite, Effect, verdict, key_state, layout, clear, close_conn, Error, set_session, end_session,
  register, press, ping_tick, write_next,
}
use cuebooth.Companion.Satellite.Lines.{read_line}

-- Where Run stands: between two sessions; the reader runs; ADD-DEVICE is queued and the verdict
-- awaited; the surface is live; the session returns.
pub data Phase : Type 0 where
  between opened awaiting live closing : Phase

abbrev pub in_session : Phase → Bool
in_session between = false
in_session opened = true
in_session awaiting = true
in_session live = true
in_session closing = true

-- `heard` is what the session's one-place channel `reg` holds; `reads` says that the reader runs.
pub record World : Type 0 where
  pub satellite : Satellite
  pub phase : Phase
  pub reads : Bool
  pub heard : Option (Option Bytes)

-- The verdict among what a line makes happen.
abbrev pub verdict_of : List Effect → Option (Option Bytes)
verdict_of [] = none
verdict_of (verdict v ∷ later) = some v
verdict_of (key_state k ∷ later) = verdict_of later
verdict_of (layout rows cols size ∷ later) = verdict_of later
verdict_of (clear ∷ later) = verdict_of later
verdict_of (close_conn ∷ later) = verdict_of later

-- `case reg <- err:` with its default.
abbrev pub offered : Option (Option Bytes) → Option (Option Bytes) → Option (Option Bytes)
offered none v = v
offered (some held) v = some held

-- `if err := s.register(); err != nil`
abbrev pub after_register : Option Error → Phase
after_register none = awaiting
after_register (some e) = closing

-- What the verdict makes of the session.
abbrev pub after_verdict : Option Bytes → Phase
after_verdict none = live
after_verdict (some message) = closing

pub data Step : World → World → Type 0 where
  dial :
      (w : World)
      → w.phase ≡ between
      → Step w (record {
        satellite = set_session w.satellite;
        phase = opened;
        reads = true;
        heard = none;
      })
  announce :
      (w : World)
      → w.phase ≡ opened
      → Step w (record w {
        satellite = (register w.satellite).0;
        phase = after_register (register w.satellite).1;
      })
  read :
      (w : World) (line : Bytes)
      → w.reads ≡ true
      → Step w (record w {
        satellite = (read_line w.satellite line).0;
        heard = offered w.heard (verdict_of (read_line w.satellite line).1);
      })
  stop_reading : (w : World) → w.reads ≡ true → Step w (record w { reads = false })
  judge :
      (w : World) (v : Option Bytes)
      → w.phase ≡ awaiting
      → w.heard ≡ some v
      → Step w (record w { phase = after_verdict v; heard = none })
  -- The connection closes, the reply is late, or the context is done.
  give_up : (w : World) → w.phase ≡ awaiting → Step w (record w { phase = closing })
  lose : (w : World) → w.phase ≡ live → w.reads ≡ false → Step w (record w { phase = closing })
  -- The deferred teardown, which waits for the reader.
  tear_down :
      (w : World)
      → w.phase ≡ closing
      → w.reads ≡ false
      → Step w (record w { satellite = end_session w.satellite; phase = between })
  -- A keepalive may outlive its session by one tick.
  ping : (w : World) → Step w (record w { satellite = (ping_tick w.satellite).0 })
  -- The second critical section of Press; what the first one read may be out of date.
  press_key :
      (w : World) (ready : Bool) (key : ℕ) (pressed : Bool)
      → Step w (record w { satellite = (press ready w.satellite key pressed).0 })
  write : (w : World) → Step w (record w { satellite = (write_next w.satellite).0 })

pub data Reach (s : Satellite) : World → Type 0 where
  start : Reach s (record { satellite = s; phase = between; reads = false; heard = none })
  later : {v w : World} → Reach s v → Step v w → Reach s w
