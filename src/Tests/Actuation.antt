-- ===== src/Tests/Actuation.antt =====
-- A button pressed over HTTP, where Companion is busy at first.
use cuebooth.Prelude.{ℕ, ◌≡◌, false, some, [], ◌==◌, if◌then◌else◌}
use cuebooth.Bytes.{bytes}
use cuebooth.Companion.Location.{Location}
use cuebooth.Companion.Client.{post, response, Round}
use cuebooth.Companion.Client.Attempts.{IsRefused, AllButLast}
use cuebooth.Companion.Client.Calls.{Client, press, actuate, verb_name}
use cuebooth.Companion.Client.Targets.{EndsWell, EveryRequest, met, target_of, actuate_exact}

abbrev busy_once : ℕ → Round
busy_once n = record {
  sleep_cancelled = false;
  outcome = response (if n == 0 then 503 else 200) (some []);
  done_after = false;
}

abbrev client : Client
client = record { base_url = bytes "http://booth:8000"; max_retries = 2; backoff = 1 }

abbrev button : Location
button = record { page = 12; row = 0; column = 7 }

actuate_exact_example :
    EveryRequest
      (λ q. (q.method ≡ post) × (target_of client.base_url q ≡ some (some button, verb_name press)))
      (actuate client button press busy_once).0
    × AllButLast IsRefused (met (actuate client button press busy_once).0)
    × EndsWell
        (actuate client button press busy_once).1
        (met (actuate client button press busy_once).0)
actuate_exact_example = actuate_exact client button press busy_once
