-- ===== src/Companion/Satellite/Lines.antt =====
-- satellite.go: the lines that Companion sends, and what each makes of the satellite.
use cuebooth.Prelude.{
  ℕ, Bool, true, false, ◌||◌, Option, none, some, List, [], ◌∷◌, ◌++◌, ◌==◌, if◌then◌else◌, Bytes,
  ℤ,
}
use cuebooth.Bytes.{equal, bytes, atoi, trim_right}
use cuebooth.Companion.Line.{Args, arg, arg_or_empty, parse_satellite_line, parse_wire_bool}
use cuebooth.Companion.Satellite.{
  or_default, Satellite, Effect, key_state, layout, clear, enqueue, signal_registration,
}

abbrev pub button_or : Bytes → Bytes
button_or t = or_default t (bytes "BUTTON")

unfoldable pub key_event : Args → Option ℤ → List Effect
key_event args none = []
key_event args (some key) =
    key_state (record {
      key = key;
      type = button_or (arg_or_empty (bytes "TYPE") args);
      pressed = parse_wire_bool (arg_or_empty (bytes "PRESSED") args);
      color = arg_or_empty (bytes "COLOR") args;
      bitmap = arg_or_empty (bytes "BITMAP") args;
    })
    ∷ []

unfoldable pub key_of : Option Bytes → Option ℤ
key_of none = none
key_of (some text) = atoi text

unfoldable pub handle_key_state : Satellite → Args → List Effect
handle_key_state s args = if s.has_key then key_event args (key_of (arg (bytes "KEY") args)) else []

abbrev pub present : Option Bytes → Bool
present none = false
present (some v) = true

abbrev pub has : Args → Bytes → Bool
has args k = present (arg k args)

-- Companion's message, as the error carries it.
pub refusal : Args → Bytes
refusal args = or_default (arg_or_empty (bytes "MESSAGE") args) (bytes "no message")

-- The case "ADD-DEVICE".
unfoldable pub handle_add_device : Satellite → Args → Satellite × List Effect
handle_add_device s args =
    let refused = signal_registration s (some (refusal args)) in
    let (s', effects) = signal_registration s none in
    let raised =
      if s.has_layout then layout s.cfg.rows s.cfg.cols s.cfg.bitmap_size ∷ effects else effects in
    if has args (bytes "ERROR")
    then refused
    else if has args (bytes "OK")
    then (s', raised)
    else (s, [])

strip_prefix : Bytes → Bytes → Bytes → Bytes
strip_prefix [] s whole = s
strip_prefix (p ∷ ps) [] whole = whole
strip_prefix (p ∷ ps) (c ∷ s) whole =
    let rest = strip_prefix ps s whole in if p == c then rest else whole

-- strings.TrimPrefix
pub trim_prefix : Bytes → Bytes → Bytes
unfolding strip_prefix
trim_prefix s p = strip_prefix p s s

-- The switch on the command; the commands that are only logged fall through to the end.
unfoldable pub handle_command : Satellite → Bytes → Bytes → Args → Satellite × List Effect
handle_command s line cmd args =
    if equal cmd (bytes "KEY-STATE")
    then (s, handle_key_state s args)
    else if equal cmd (bytes "PING")
    then ((enqueue s (bytes "PONG" ++ trim_prefix line (bytes "PING"))).0, [])
    else if equal cmd (bytes "KEYS-CLEAR")
    then (s, if s.has_clear then clear ∷ [] else [])
    else if equal cmd (bytes "ADD-DEVICE")
    then handle_add_device s args
    else (s, [])

unfoldable pub handle_line : Satellite → Bytes → Satellite × List Effect
handle_line s [] = (s, [])
handle_line s (c ∷ rest) =
    let line = c ∷ rest in
    let (cmd, args) = parse_satellite_line line in handle_command s line cmd args

abbrev pub is_line_end : ℕ → Bool
is_line_end c = c == 13 || c == 10

-- One terminated line of the read loop.
unfoldable pub read_line : Satellite → Bytes → Satellite × List Effect
read_line s line = handle_line s (trim_right is_line_end line)
