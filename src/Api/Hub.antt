-- ===== src/Api/Hub.antt =====
-- server/internal/api/hub.go: the connections that a broadcast reaches. A pointer to a connection is its
-- number, and the hub's connections stand in a list, whose order Go leaves open.
pub mod Synced
pub mod Held
pub mod Linked
use cuebooth.Prelude.{
  ℕ, Bool, true, false, Option, none, some, List, [], ◌∷◌, ◌++◌, ◌==◌, if◌then◌else◌, Bytes, map,
}
use cuebooth.Bytes.{bytes}
use cuebooth.State.Json.{Object}
use cuebooth.State.Store.{Result, delta_for}
use cuebooth.Api.SendQueue.{SendQueue, push_other, push_surface_key, push_surface_layout}
use cuebooth.Api.Connection.{ClientConn, Effect, going_away, close, queued}

pub record Hub : Type 0 where
  pub clients : List (ℕ × ClientConn)

pub new_hub : Hub
new_hub = record { clients = [] }

unfoldable pub without : ℕ → List (ℕ × ClientConn) → List (ℕ × ClientConn)
without id [] = []
without id ((i, c) ∷ rest) =
    let others = without id rest in if i == id then others else (i, c) ∷ others

unfoldable pub add : Hub → ℕ → ClientConn → Hub
add h id c = record { clients = (id, record c { in_hub = true }) ∷ without id h.clients }

unfoldable pub remove : Hub → ℕ → Hub
remove h id = record { clients = without id h.clients }

-- One call for each connection, with what the calls do beyond it.
unfoldable pub each :
    (ClientConn → ClientConn × List Effect)
    → List (ℕ × ClientConn)
    → List (ℕ × ClientConn) × List (ℕ × Effect)
each f [] = ([], [])
each f ((id, c) ∷ rest) =
    let (c', effects) = f c in
    let (rest', later) = each f rest in ((id, c') ∷ rest', map (λ e. (id, e)) effects ++ later)

unfoldable pub broadcast : (ClientConn → ClientConn × List Effect) → Hub → Hub × List (ℕ × Effect)
broadcast f h = let (clients, effects) = each f h.clients in (record { clients = clients }, effects)

-- What a delta makes of one connection: nothing where scopePatch gives nil.
unfoldable pub send_delta :
    (ℕ → Object → Bytes) → ClientConn → Option (ℕ × Object) → ClientConn × List Effect
send_delta marshal_delta c none = (c, [])
send_delta marshal_delta c (some (rev, patch)) =
    queued c (push_other c.send (marshal_delta rev patch))

unfoldable pub broadcast_delta : (ℕ → Object → Bytes) → Hub → Result → Hub × List (ℕ × Effect)
broadcast_delta marshal_delta h res =
    broadcast (λ c. send_delta marshal_delta c (delta_for c.topics res)) h

-- The broadcasts of an update's results, to one connection.
unfoldable pub send_deltas : (ℕ → Object → Bytes) → ClientConn → List Result → ClientConn
send_deltas marshal_delta c [] = c
send_deltas marshal_delta c (res ∷ later) =
    send_deltas marshal_delta (send_delta marshal_delta c (delta_for c.topics res)).0 later

-- The same, for a connection that may have left the hub.
unfoldable pub broadcast_to : (ℕ → Object → Bytes) → ClientConn → List Result → ClientConn
broadcast_to marshal_delta c results = if c.in_hub then send_deltas marshal_delta c results else c

unfoldable pub broadcast_surface_key : Hub → ℕ → ℕ → Bytes → Hub
broadcast_surface_key h key seq frame =
    (broadcast (λ c. (record c { send = push_surface_key c.send key seq frame }, [])) h).0

unfoldable pub broadcast_surface_layout : Hub → ℕ → Bytes → Hub
broadcast_surface_layout h seq frame =
    (broadcast (λ c. (record c { send = push_surface_layout c.send seq frame }, [])) h).0

unfoldable pub close_all : Hub → Bytes → Hub × List (ℕ × Effect)
close_all h reason = broadcast (λ c. close c going_away reason false) h
