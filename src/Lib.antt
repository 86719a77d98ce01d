-- ===== src/Lib.antt =====
-- Verification of the CueBooth server.
--
-- CueBooth lets a Flutter client drive a show through Bitfocus Companion: the server keeps WebSocket
-- connections, sends Companion's button surface and the show's state to them, turns their commands
-- into button presses, and holds the credential of a chat provider. A model follows the Go source's
-- functions by name, in snake case; its state is a record with the fields of the source's struct.
-- Mutexes turn into single functions, one for each critical section; what happens outside is
-- returned as a list of effects.
--
-- Server (server/internal):
--   Api/SendQueue: api/sendqueue.go, a connection's queue with its elements, index and handles. Its
--     children hold a specification on two lists of frames (Frames), the laws of that specification
--     (Coalesce), the agreement of the handles with it (Handles), and what a client shows (Delivery, and
--     Pictures with the images).
--   Api/Surface: api/surface.go, the cache of the surface and what is sent to one connection, while a
--     callback stores under the lock and broadcasts behind it; its children are the cache, a replay with
--     a broadcast among its frames (Across), and what the client shows (Follows, Delivered).
--   Api/Connection: api/client.go, what a frame of the client does to its connection. Its child Run
--     has run as a step relation: the reader, the writer, the pinger and the teardown.
--   Api/Dispatch: api/dispatch.go, commands. It uses Config/Presets (config/presets.go) to find a
--     button, and gives mutators of State (state/state.go).
--   Api/RateLimit: api/ratelimit.go.
--   State/Store: state/store.go, with the JSON forms of State/Json and the diff and topic filter of
--     State/MergePatch (state/mergepatch.go); its children hold the store and one client (Mirror,
--     Gaps, Updates) and the observer's calls (Revisions). State/Poller: state/poller.go.
--   Api/Hub: api/hub.go, the connections that a broadcast reaches. Api/Hub/Linked puts the store, the
--     hub's broadcast, a connection's queue and the client's copy together as a step relation, in which
--     a subscription change is three steps, with the lemmas of Held and Synced.
--   Api/Chat: api/chat.go, the chat routes over a provider interface, with the limiter of
--     Api/RateLimit and the store; its children are named for the guard, the redirect, the callback
--     slots and the published status.
--   WebUi: webui/webui.go, the file that a path is answered with.
--   Config/Satellite, Config/Chat, Config/Load: config/config.go, the tables, their checks and Load.
--     Config/Satellite/Registers goes on to the surface that cmd/cuebooth-server/main.go makes of a
--     table.
--   Companion/Client, Companion/Location, Companion/Line, Companion/Satellite:
--     companion/client.go, companion/location.go and companion/satellite.go. Companion/Client has the
--     retry loop, its children Calls and Targets the methods and the paths they ask for;
--     Companion/Satellite has the critical sections, its child Life the step relation of Run and
--     session over them.
--   Chat/TokenStore: chat/tokenstore.go, load and save on a disk that can lose power at any point.
--   Chat/Restream: chat/restream.go. Its children: Start has NewRestream, which loads what
--     Chat/TokenStore saved; Exchanges and Url hold the token exchanges and URL with its retry, each
--     call whole; Flights has the exchanges of concurrent requests step by step, with Drain.
--   Api/Server: api/server.go, the routes, the common headers and serve with its stop; its child
--     Options has NewServer with its options, over Api/Chat, Api/Surface and the store.
--   Command: cmd/cuebooth-server/main.go, from the loaded configuration to the server's start, over
--     Config, Companion and Chat/Restream.
-- Client: client/lib/services/surface_state.dart, the rules by which the Flutter client applies
--   surface frames, with the image that a key has once its bitmap is decoded. State/MergePatch/Client and State/AppState: client/lib/services/protocol.dart
--   (applyMergePatch) and client/lib/services/app_state.dart, the client's copy of the state.
-- Prelude, Bytes and Table hold shared names, byte strings and association lists; Tests holds
-- concrete inputs.
--
-- Bounds and fuel: text is a list of byte values, handled as ASCII where the source handles runes.
-- Times are natural numbers of nanoseconds since Go's zero time. A float64 is its 64 bits. The loop of
-- LoginURL that makes room runs on as much fuel as there are entries, of which each round takes one;
-- the loop of the HTTP client runs on its retries plus one. Counters that wrap are taken modulo
-- 2 ^ 64; sequence numbers and list lengths are natural numbers, which a run does not exhaust.
--
-- A decoded JSON object is a list of fields, of which a key's first one counts; the loops over Go
-- maps, whose order is open, go along the list. An int of the satellite's grid keeps its 64 bits
-- where it is multiplied; revisions are natural numbers.
--
-- Not modelled: sockets, timers, logging, the JSON, URL and TOML libraries, most HTTP headers, the
-- acceptance of WebSockets, the meter endpoint (which only holds its connections), and the command's
-- flags, signals and Windows service. What the network, the clock and these libraries
-- give is an argument of the definitions; what is assumed of toMap, reflect.DeepEqual, a frame's
-- encoding and filepath.Join is a hypothesis of the theorems that need it.
mod Prelude
pub mod Bytes
pub mod Api
pub mod WebUi
pub mod Client
pub mod Companion
pub mod Table
pub mod Config
pub mod State
pub mod Chat
mod Tests
pub mod Command
