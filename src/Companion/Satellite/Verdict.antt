-- ===== src/Companion/Satellite/Verdict.antt =====
-- Which lines make a surface live, which end it, and what Press may send.
use cuebooth.Prelude.{
  ℕ, ◌≡◌, refl, sym, ◌∙◌, Bool, true, false, Option, none, some, List, [], ◌∷◌, ◌++◌, leb,
  if◌then◌else◌, Bytes, length, ◌⊎◌, inl, inr, arith, Bool-cases,
}
use cuebooth.Bytes.{bytes, equal}
use cuebooth.Companion.Line.{Args, parse_satellite_line}
use cuebooth.Companion.Satellite.{
  Satellite, Error, not_connected, out_buffer, enqueue, enqueue_on, signal_registration, press,
  press_line,
}
use cuebooth.Companion.Satellite.Lines.{
  handle_add_device, handle_command, handle_line, has, trim_prefix,
}

-- Companion's answer to ADD-DEVICE: a refusal carries ERROR, and an acceptance OK without ERROR.
pub record Refuses (line : Bytes) : Type 0 where
  pub is_answer : equal (parse_satellite_line line).0 (bytes "ADD-DEVICE") ≡ true
  pub is_error : has (parse_satellite_line line).1 (bytes "ERROR") ≡ true

pub record Accepts (line : Bytes) : Type 0 where
  pub is_answer : equal (parse_satellite_line line).0 (bytes "ADD-DEVICE") ≡ true
  pub no_error : has (parse_satellite_line line).1 (bytes "ERROR") ≡ false
  pub is_ok : has (parse_satellite_line line).1 (bytes "OK") ≡ true

registered-enqueue : (s : Satellite) (line : Bytes) → (enqueue s line).0.registered ≡ s.registered
unfolding enqueue enqueue_on
registered-enqueue s line = ground arith

add_device_registers :
    (s : Satellite) (args : Args)
    → (handle_add_device s args).0.registered ≡ true
    → (s.registered ≡ true) ⊎ ((has args (bytes "ERROR") ≡ false) × (has args (bytes "OK") ≡ true))
unfolding handle_add_device signal_registration
add_device_registers s args h = elim (Bool-cases (has args (bytes "ERROR"))) [
  | inl refused ↦ absurd (cc (rw refused at h))
  | inr fine ↦ elim (Bool-cases (has args (bytes "OK"))) [
    | inl accepted ↦ inr (fine, accepted)
    | inr neither ↦ inl (rw neither at (rw fine at h))
  ]
]

command_registers :
    (s : Satellite) (line cmd : Bytes) (args : Args)
    → (handle_command s line cmd args).0.registered ≡ true
    → (s.registered ≡ true)
      ⊎ ((equal cmd (bytes "ADD-DEVICE") ≡ true) × (handle_add_device s args).0.registered ≡ true)
unfolding handle_command
command_registers s line cmd args h = elim (Bool-cases (equal cmd (bytes "KEY-STATE"))) [
  | inl e ↦ inl (rw e at h)
  | inr e ↦ elim (Bool-cases (equal cmd (bytes "PING"))) [
    | inl ping ↦ inl (
        sym (registered-enqueue s (bytes "PONG" ++ trim_prefix line (bytes "PING")))
        ∙ (rw ping at (rw e at h)))
    | inr not_ping ↦ elim (Bool-cases (equal cmd (bytes "KEYS-CLEAR"))) [
      | inl clears ↦ inl (rw clears at (rw not_ping at (rw e at h)))
      | inr stays ↦ elim (Bool-cases (equal cmd (bytes "ADD-DEVICE"))) [
        | inl add ↦ inr (add, rw add at (rw stays at (rw not_ping at (rw e at h))))
        | inr other ↦ inl (rw other at (rw stays at (rw not_ping at (rw e at h))))
      ]
    ]
  ]
]

-- A line of Companion leaves the surface live only if it was live before, or the line accepts it:
-- the line is an ADD-DEVICE with OK and without ERROR.
pub line_registers :
    (s : Satellite) (line : Bytes)
    → (handle_line s line).0.registered ≡ true
    → (s.registered ≡ true) ⊎ Accepts line
unfolding handle_line
line_registers s [] h = inl h
line_registers s (c ∷ rest) h =
    let line = c ∷ rest in
    elim (command_registers s line (parse_satellite_line line).0 (parse_satellite_line line).1 h) [
      | inl was ↦ inl was
      | inr (add, now) ↦ elim (add_device_registers s (parse_satellite_line line).1 now) [
        | inl was ↦ inl was
        | inr (fine, accepted) ↦ inr record { is_answer = add; no_error = fine; is_ok = accepted }
      ]
    ]

enqueue_on_sent :
    (s : Satellite) (out : Option (List Bytes)) (line : Bytes)
    → (enqueue_on s out line).1 ≡ none
    → (lines : List Bytes) × (out ≡ some lines)
      × ((enqueue_on s out line).0.out ≡ some (lines ++ line ∷ []))
unfolding enqueue_on
enqueue_on_sent s none line h = cc
enqueue_on_sent s (some lines) line h = elim (Bool-cases (leb out_buffer (length lines))) [
  | inl full ↦ cc (rw full at h)
  | inr room ↦ (lines, refl, rw room (refl))
]

enqueue_on_failed :
    (s : Satellite) (out : Option (List Bytes)) (line : Bytes) (e : Error)
    → (enqueue_on s out line).1 ≡ some e
    → (enqueue_on s out line).0 ≡ s
unfolding enqueue_on
enqueue_on_failed s none line e h = refl
enqueue_on_failed s (some lines) line e h = elim (Bool-cases (leb out_buffer (length lines))) [
  | inl full ↦ rw full (refl)
  | inr room ↦ cc (rw room at h)
]

-- Whichever way the test of Press goes, a failure changes nothing.
failed_if :
    (s : Satellite) (live : Bool) (sent : Satellite × Option Error)
    → ((e : Error) → sent.1 ≡ some e → sent.0 ≡ s)
    → (e : Error) → (if live then sent else (s, some not_connected)).1 ≡ some e
    → (if live then sent else (s, some not_connected)).0 ≡ s
failed_if s true sent f e h = f e h
failed_if s false sent f e h = refl

sent_if :
    (s : Satellite) (live : Bool) (sent : Satellite × Option Error) (P : Satellite → Type 0)
    → (sent.1 ≡ none → P sent.0)
    → (if live then sent else (s, some not_connected)).1 ≡ none
    → (live ≡ true) × P (if live then sent else (s, some not_connected)).0
sent_if s true sent P f h = (refl, f h)
sent_if s false sent P f h = cc

-- With no teardown between the two critical sections of Press: a press that succeeds was sent in a live session, and puts exactly its one line at the end of the
-- queue; a press that fails leaves the satellite as it was.
pub press_sent :
    (s : Satellite) (key : ℕ) (pressed : Bool)
    → ((press s.registered s key pressed).1 ≡ none
        → (s.registered ≡ true)
          × ((lines : List Bytes) × (s.out ≡ some lines)
              × ((press s.registered s key pressed).0.out
                  ≡ some (lines ++ press_line s.cfg key pressed ∷ []))))
      × ((e : Error)
          → (press s.registered s key pressed).1 ≡ some e
          → (press s.registered s key pressed).0 ≡ s)
unfolding press enqueue
press_sent s key pressed = (
  sent_if s s.registered _
      (λ after.
        (lines : List Bytes) × (s.out ≡ some lines)
        × (after.out ≡ some (lines ++ press_line s.cfg key pressed ∷ [])))
      (enqueue_on_sent s s.out (press_line s.cfg key pressed)),
  failed_if s s.registered _ (enqueue_on_failed s s.out (press_line s.cfg key pressed)),
)
