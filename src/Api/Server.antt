-- ===== src/Api/Server.antt =====
-- server/internal/api/server.go: the routes that NewServer registers, the headers of every response, and
-- how serve stops. The path is as http.ServeMux matches it; the dispatcher, the poller and the web
-- client are modelled in their own files. A duration is a number of nanoseconds; what each wait would
-- take without its deadline is an argument.
pub mod Stopping
pub mod Options
use cuebooth.Prelude.{
  ℕ, ◌+◌, ◌-◌, ◌*◌, ◌/◌, ◌==◌, ◌^◌, ◌≤◌, ◌≡◌, refl, Bool, true, false, Option, none, some, List, [],
  ◌∷◌, ◌++◌, ltb, if◌then◌else◌, Bytes, arith, min,
}
use cuebooth.Bytes.{bytes}
use cuebooth.Table.{Table, lookup, insert}
use cuebooth.Chat.Restream.{second}

pub data Route : Type 0 where
  ws meters chat_url chat_auth chat_callback web_ui : Route

-- The chat routes are registered only with a provider.
unfoldable pub routes : Bool → Table Route
routes has_chat =
    (bytes "/ws", ws)
    ∷ (bytes "/ws/meters", meters)
    ∷ (if has_chat
        then (bytes "/chat/url", chat_url)
          ∷ (bytes "/chat/auth/start", chat_auth)
          ∷ (bytes "/chat/auth/callback", chat_callback)
          ∷ []
        else [])

-- "/" is the least specific pattern: what no other one names goes to the web client.
abbrev pub or_web_ui : Option Route → Route
or_web_ui none = web_ui
or_web_ui (some r) = r

unfoldable pub route_of : Bool → Bytes → Route
unfolding routes
route_of has_chat path = or_web_ui (lookup path (routes has_chat))

-- withCommonHeaders: the handler starts from these headers.
pub with_common_headers {ℓ} : {A : Type ℓ} → (Table Bytes → A) → Table Bytes → A
with_common_headers next h = next (
    insert (bytes "X-Content-Type-Options") (bytes "nosniff") (
      insert (bytes "X-Frame-Options") (bytes "DENY")
        (insert (bytes "Content-Security-Policy") (bytes "frame-ancestors 'none'") h)))

abbrev pub shutdown_timeout : ℕ
shutdown_timeout = 5 * second

abbrev pub chat_drain_timeout : ℕ
chat_drain_timeout = 25 * second

-- restream.go: tokenRequestTimeout
abbrev pub token_request_timeout : ℕ
token_request_timeout = 20 * second

-- StopBudget
abbrev pub stop_budget : ℕ
stop_budget = shutdown_timeout + chat_drain_timeout

-- What serve does once its context is done, each with the time that it takes.
pub data Action : Type 0 where
  shut_down_http close_clients wait_for_handlers drain_chat : ℕ → Action

abbrev pub time_of : Action → ℕ
time_of (shut_down_http t) = t
time_of (close_clients t) = t
time_of (wait_for_handlers t) = t
time_of (drain_chat t) = t

unfoldable pub total : List Action → ℕ
total [] = 0
total (a ∷ rest) = time_of a + total rest

-- What the waits would take with no deadline: the open requests, the connections' handlers, and the
-- token requests that are out.
pub record Wants : Type 0 where
  pub requests : ℕ
  pub handlers : ℕ
  pub tokens : ℕ

abbrev pub until : ℕ → ℕ → ℕ
until wanted deadline = if ltb wanted deadline then wanted else deadline

-- restream.go: drainPollInterval
abbrev pub drain_poll_interval : ℕ
drain_poll_interval = 20000000

-- The tick of Drain at which it reads that no request is out; it reads once before the first tick.
unfoldable pub next_tick : ℕ → ℕ
next_tick tokens =
    if tokens == 0 then 0 else ((tokens - 1) / drain_poll_interval + 1) * drain_poll_interval

-- Drain, which its deadline ends.
unfoldable pub drain_time : ℕ → ℕ
drain_time tokens = until (next_tick tokens) chat_drain_timeout

unfoldable pub drained : Bool → Wants → List Action
drained has_chat w = if has_chat then drain_chat (drain_time w.tokens) ∷ [] else []

-- Shutdown and waitConns share one deadline.
unfoldable pub stop : Bool → Wants → List Action
unfolding drained
stop has_chat w =
    let shut = until w.requests shutdown_timeout in
    shut_down_http shut
    ∷ close_clients 0
    ∷ wait_for_handlers (until w.handlers (shutdown_timeout - shut))
    ∷ drained has_chat w

-- What makes serve return: its context, with what Shutdown answers, or the listener.
pub data Ending (E : Type 0) : Type 0 where
  cancelled : Option E → Ending E
  server_closed : Ending E
  listener_failed : E → Ending E

-- serve: what it does before it returns, and what it returns.
unfoldable pub serve : {E : Type 0} → Bool → Wants → Ending E → List Action × Option E
unfolding stop
serve has_chat w (cancelled e) = (stop has_chat w, e)
serve has_chat w server_closed = ([], none)
serve has_chat w (listener_failed e) = ([], some e)
