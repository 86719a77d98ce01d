-- ===== src/Api/Server/Stopping.antt =====
-- server.go: how long a stop takes, and whom it waits for.
use cuebooth.Prelude.{◌-◌, List, [], ◌∷◌}
use cuebooth.Api.Server.{
  Action, shut_down_http, close_clients, wait_for_handlers, Wants, until, shutdown_timeout,
}

-- What a stop does before it drains the chat provider.
abbrev pub before_drain : Wants → List Action
before_drain w =
    let shut = until w.requests shutdown_timeout in
    shut_down_http shut
    ∷ close_clients 0
    ∷ wait_for_handlers (until w.handlers (shutdown_timeout - shut))
    ∷ []
