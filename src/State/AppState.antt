-- ===== src/State/AppState.antt =====
-- client/lib/services/app_state.dart: the Flutter client's copy of the state. A revision is a natural
-- number.
use cuebooth.Prelude.{ℕ, ◌+◌, ◌==◌, leb, Bool, true, false, not, if◌then◌else◌}
use cuebooth.State.Json.{Object, end}
use cuebooth.State.MergePatch.Client.{apply_fields}

pub record AppState : Type 0 where
  pub fields : Object
  pub rev : ℕ
  pub have_baseline : Bool

pub data DeltaOutcome : Type 0 where
  applied stale gap : DeltaOutcome

unfoldable pub apply_snapshot : AppState → ℕ → Object → AppState
apply_snapshot a rev topics_data = record { fields = topics_data; rev = rev; have_baseline = true }

unfoldable pub apply_delta : AppState → ℕ → Object → AppState × DeltaOutcome
apply_delta a rev patch =
    if not a.have_baseline
    then (a, gap)
    else if leb rev a.rev
    then (a, stale)
    else if not (rev == a.rev + 1)
    then (a, gap)
    else (record a { fields = apply_fields a.fields patch; rev = rev }, applied)

unfoldable pub reset : AppState
reset = record { fields = end; rev = 0; have_baseline = false }
