-- ===== src/Companion/Satellite/Session.antt =====
-- The life of a satellite session.
use cuebooth.Prelude.{
  ℕ, ◌≤◌, ◌<◌, ◌≡◌, refl, Bool, true, false, Option, none, some, List, [], ◌∷◌, ◌++◌, leb,
  if◌then◌else◌, Bytes, length, subst, length-append, inl, inr, arith, Bool-cases,
}
use cuebooth.Bytes.{bytes, equal}
use cuebooth.Companion.Line.{Args, parse_satellite_line}
use cuebooth.Companion.Satellite.{
  Satellite, out_buffer, enqueue, enqueue_on, set_session, end_session, take_line, write_next,
  signal_registration, register, press, press_line, ping_tick,
}
use cuebooth.Companion.Satellite.Lines.{
  handle_add_device, handle_command, handle_line, read_line, has, trim_prefix, refusal,
}

-- There is a queue exactly during a session, and it is bounded.
abbrev pub Queue : Bool → Option (List Bytes) → Type 0
Queue true none = ⊥
Queue true (some lines) = length lines ≤ out_buffer
Queue false none = Unit {0}
Queue false (some lines) = ⊥

-- Only a session is registered or waits for a verdict.
pub record IsSound (s : Satellite) : Type 0 where
  pub queue : Queue s.connected s.out
  pub registered_in_session : s.registered ≡ true → s.connected ≡ true
  pub awaiting_in_session : s.awaiting ≡ true → s.connected ≡ true

-- One critical section, by the goroutine that may enter it: the reader lives within a session, and a
-- session opens when none is there.
pub data Step (s : Satellite) : Satellite → Type 0 where
  opens : s.connected ≡ false → Step s (set_session s)
  registers : Step s (register s).0
  reads : (line : Bytes) → s.connected ≡ true → Step s (read_line s line).0
  presses : (ready : Bool) (key : ℕ) (pressed : Bool) → Step s (press ready s key pressed).0
  pings : Step s (ping_tick s).0
  writes : Step s (write_next s).0
  ends : Step s (end_session s)

data Reach (s : Satellite) : Satellite → Type 0 where
  here : Reach s s
  next : {t u : Satellite} → Reach s t → Step t u → Reach s u

Queue-append :
    (connected : Bool) (lines : List Bytes) (line : Bytes)
    → Queue connected (some lines)
    → leb out_buffer (length lines) ≡ false
    → Queue connected (some (lines ++ line ∷ []))
Queue-append true lines line h room =
    let room' : length lines < out_buffer = ground arith in
    omega (arith, length-append lines (line ∷ []))
Queue-append false lines line h room = h

Queue-rest :
    (connected : Bool) (lines : List Bytes) (line : Bytes)
    → Queue connected (some (line ∷ lines))
    → Queue connected (some lines)
Queue-rest true lines line h = omega arith
Queue-rest false lines line h = h

enqueue_on-IsSound :
    (s : Satellite) (o : Option (List Bytes)) (line : Bytes)
    → s.out ≡ o
    → IsSound s
    → IsSound (enqueue_on s o line).0
unfolding enqueue_on
enqueue_on-IsSound s none line e h = h
enqueue_on-IsSound s (some lines) line e h = elim (Bool-cases (leb out_buffer (length lines))) [
  | inl full ↦ rw full h
  | inr room ↦ rw room (record {
    queue = Queue-append s.connected lines line (subst (Queue s.connected) e h.queue) room;
    registered_in_session = h.registered_in_session;
    awaiting_in_session = h.awaiting_in_session;
  })
]

enqueue-IsSound : (s : Satellite) (line : Bytes) → IsSound s → IsSound (enqueue s line).0
unfolding enqueue
enqueue-IsSound s line h = enqueue_on-IsSound s s.out line refl h

take_line-IsSound :
    (s : Satellite) (o : Option (List Bytes)) → s.out ≡ o → IsSound s → IsSound (take_line s o).0
unfolding take_line
take_line-IsSound s none e h = h
take_line-IsSound s (some []) e h = h
take_line-IsSound s (some (line ∷ rest)) e h = record {
  queue = Queue-rest s.connected rest line (subst (Queue s.connected) e h.queue);
  registered_in_session = h.registered_in_session;
  awaiting_in_session = h.awaiting_in_session;
}

signal-IsSound :
    (s : Satellite) (e : Option Bytes)
    → s.connected ≡ true
    → IsSound s
    → IsSound (signal_registration s e).0
unfolding signal_registration
signal-IsSound s e c h = record {
  queue = h.queue;
  registered_in_session = λ _. c;
  awaiting_in_session = λ _. c;
}

-- Whichever way a test goes.
if-IsSound {ℓ} :
    {B : Type ℓ} (b : Bool) (x y : Satellite × B)
    → IsSound x.0
    → IsSound y.0
    → IsSound (if b then x else y).0
if-IsSound true x y hx hy = hx
if-IsSound false x y hx hy = hy

add_device-IsSound :
    (s : Satellite) (args : Args)
    → s.connected ≡ true
    → IsSound s
    → IsSound (handle_add_device s args).0
unfolding handle_add_device
add_device-IsSound s args c h =
    if-IsSound (has args (bytes "ERROR")) _ _ (signal-IsSound s (some (refusal args)) c h)
      (if-IsSound (has args (bytes "OK")) _ _ (signal-IsSound s none c h) h)

command-IsSound :
    (s : Satellite) (line cmd : Bytes) (args : Args)
    → s.connected ≡ true
    → IsSound s
    → IsSound (handle_command s line cmd args).0
unfolding handle_command
command-IsSound s line cmd args c h = if-IsSound (equal cmd (bytes "KEY-STATE")) _ _ h (
    if-IsSound (equal cmd (bytes "PING")) _ _
      (enqueue-IsSound s (bytes "PONG" ++ trim_prefix line (bytes "PING")) h)
      (if-IsSound (equal cmd (bytes "KEYS-CLEAR")) _ _ h
        (if-IsSound (equal cmd (bytes "ADD-DEVICE")) _ _ (add_device-IsSound s args c h) h)))

line-IsSound :
    (s : Satellite) (line : Bytes) → s.connected ≡ true → IsSound s → IsSound (handle_line s line).0
unfolding handle_line
line-IsSound s [] c h = h
line-IsSound s (b ∷ rest) c h =
    command-IsSound s (b ∷ rest) (parse_satellite_line (b ∷ rest)).0
      (parse_satellite_line (b ∷ rest)).1 c h

press-IsSound :
    (ready : Bool) (s : Satellite) (key : ℕ) (pressed : Bool)
    → IsSound s
    → IsSound (press ready s key pressed).0
unfolding press
press-IsSound ready s key pressed h =
    if-IsSound ready _ _ (enqueue-IsSound s (press_line s.cfg key pressed) h) h

pub Step-IsSound : {s t : Satellite} → Step s t → IsSound s → IsSound t
unfolding set_session end_session register read_line ping_tick write_next
Step-IsSound (opens idle) h = record {
  queue = omega arith;
  registered_in_session = λ _. refl;
  awaiting_in_session = λ _. refl;
}
Step-IsSound {s} registers h = enqueue-IsSound s _ h
Step-IsSound {s} (reads line c) h = line-IsSound s _ c h
Step-IsSound {s} (presses ready key pressed) h = press-IsSound ready s key pressed h
Step-IsSound {s} pings h = enqueue-IsSound s _ h
Step-IsSound {s} writes h = take_line-IsSound s s.out refl h
Step-IsSound {s} ends h = record {
  queue = tt;
  registered_in_session = λ r. absurd (cc r);
  awaiting_in_session = λ r. absurd (cc r);
}

-- From a sound satellite, whatever the goroutines do in whatever order, there is a send queue
-- exactly while a session lasts, it never holds more than 32 lines, and only a session in progress
-- is registered or waits for a verdict.
Reach-IsSound : {s t : Satellite} → Reach s t → IsSound s → IsSound t
Reach-IsSound here h = h
Reach-IsSound (next r step) h = Step-IsSound step (Reach-IsSound r h)
