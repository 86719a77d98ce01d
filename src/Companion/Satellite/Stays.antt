-- ===== src/Companion/Satellite/Stays.antt =====
-- satellite.go: what a critical section leaves of the session that it runs in.
use cuebooth.Prelude.{
  ℕ, ℤ, ◌≡◌, refl, sym, ◌∙◌, inl, inr, Bool, true, false, Option, none, some, List, [], ◌∷◌, ◌++◌,
  if◌then◌else◌, Bytes, leb, length, either, Bool-cases,
}
use cuebooth.Bytes.{bytes, equal, trim_right}
use cuebooth.Companion.Line.{Args, parse_satellite_line}
use cuebooth.Companion.Satellite.{
  Satellite, Effect, Error, enqueue, enqueue_on, out_buffer, signal_registration, press, press_line,
  take_line, clear,
}
use cuebooth.Companion.Satellite.Lines.{
  handle_add_device, handle_command, handle_line, read_line, handle_key_state, has, refusal,
  trim_prefix, key_event, key_of, is_line_end,
}
use cuebooth.Companion.Satellite.Life.{verdict_of}

-- What a critical section within a session leaves: the session, and no verdict awaited anew; where it
-- gives a verdict, none is awaited any more.
pub record Stays (s : Satellite) (p : Satellite × List Effect) : Type 0 where
  pub connected : p.0.connected ≡ s.connected
  pub unasked : s.awaiting ≡ false → p.0.awaiting ≡ false
  pub answered : (v : Option Bytes) → verdict_of p.1 ≡ some v → p.0.awaiting ≡ false

unmoved : (s : Satellite) (es : List Effect) → verdict_of es ≡ none → Stays s (s, es)
unmoved s es e = record { connected = refl; unasked = λ h. h; answered = λ v h. cc (sym e ∙ h) }

queued-Stays :
    (s : Satellite) (o : Option (List Bytes)) (line : Bytes) → Stays s ((enqueue_on s o line).0, [])
unfolding enqueue_on
queued-Stays s none line = unmoved s [] refl
queued-Stays s (some lines) line = elim (Bool-cases (leb out_buffer (length lines))) [
  | inl full ↦ rw full (unmoved s [] refl)
  | inr room ↦ rw room (record { connected = refl; unasked = λ h. h; answered = λ v h. cc })
]

pub enqueue-Stays : (s : Satellite) (line : Bytes) → Stays s ((enqueue s line).0, [])
unfolding enqueue
enqueue-Stays s line = queued-Stays s s.out line

signal-Stays : (s : Satellite) (e : Option Bytes) → Stays s (signal_registration s e)
unfolding signal_registration
signal-Stays s e = record { connected = refl; unasked = λ h. refl; answered = λ v h. refl }

event_silent : (args : Args) (key : Option ℤ) → verdict_of (key_event args key) ≡ none
unfolding key_event
event_silent args none = refl
event_silent args (some key) = refl

clear_silent : (there : Bool) → verdict_of (if there then clear ∷ [] else []) ≡ none
clear_silent true = refl
clear_silent false = refl

key_state_silent : (s : Satellite) (args : Args) → verdict_of (handle_key_state s args) ≡ none
unfolding handle_key_state
key_state_silent s args = elim (Bool-cases s.has_key) [
  | inl there ↦ rw there (event_silent args (key_of _))
  | inr absent ↦ rw absent refl
]

device-Stays : (s : Satellite) (args : Args) → Stays s (handle_add_device s args)
unfolding handle_add_device signal_registration
device-Stays s args =
    either (Stays s) (has args (bytes "ERROR")) (signal-Stays s (some (refusal args))) (
      either (Stays s) (has args (bytes "OK"))
        (record { connected = refl; unasked = λ h. refl; answered = λ v h. refl })
        (unmoved s [] refl))

command-Stays :
    (s : Satellite) (line cmd : Bytes) (args : Args) → Stays s (handle_command s line cmd args)
unfolding handle_command
command-Stays s line cmd args =
    either (Stays s) (equal cmd (bytes "KEY-STATE")) (unmoved s _ (key_state_silent s args)) (
      either (Stays s) (equal cmd (bytes "PING"))
        (enqueue-Stays s (bytes "PONG" ++ trim_prefix line (bytes "PING")))
        (either (Stays s) (equal cmd (bytes "KEYS-CLEAR")) (unmoved s _ (clear_silent s.has_clear))
          (either (Stays s) (equal cmd (bytes "ADD-DEVICE")) (device-Stays s args)
            (unmoved s [] refl))))

line-Stays : (s : Satellite) (line : Bytes) → Stays s (handle_line s line)
unfolding handle_line
line-Stays s [] = unmoved s [] refl
line-Stays s (b ∷ rest) =
    command-Stays s (b ∷ rest) (parse_satellite_line (b ∷ rest)).0
      (parse_satellite_line (b ∷ rest)).1

pub read-Stays : (s : Satellite) (line : Bytes) → Stays s (read_line s line)
unfolding read_line
read-Stays s line = line-Stays s (trim_right is_line_end line)

pub press-Stays :
    (ready : Bool) (s : Satellite) (key : ℕ) (pressed : Bool)
    → Stays s ((press ready s key pressed).0, [])
unfolding press
press-Stays ready s key pressed =
    either (λ (p : Satellite × Option Error). Stays s (p.0, [])) ready
      (enqueue-Stays s (press_line s.cfg key pressed)) (unmoved s [] refl)

pub taken-Stays : (s : Satellite) (o : Option (List Bytes)) → Stays s ((take_line s o).0, [])
unfolding take_line
taken-Stays s none = unmoved s [] refl
taken-Stays s (some []) = unmoved s [] refl
taken-Stays s (some (line ∷ rest)) = record {
  connected = refl;
  unasked = λ h. h;
  answered = λ v h. cc;
}
