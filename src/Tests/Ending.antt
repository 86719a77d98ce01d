-- ===== src/Tests/Ending.antt =====
-- A connection that sends a malformed frame and is closed for it, and one that ends with a key held.
use cuebooth.Prelude.{none, Option, ◌*◌, ℕ, ◌≡◌, refl, false}
use cuebooth.Bytes.{bytes}
use cuebooth.Api.Server.{Wants}
use cuebooth.Chat.Restream.{second}
use cuebooth.Api.Dispatch.{protocol}
use cuebooth.Api.Connection.{invalid_payload, error_frame}
use cuebooth.Api.Connection.Later.{Member}
use cuebooth.Api.Connection.Run.{stopped}
use cuebooth.Api.Connection.Run.Told.{handshake_told}
use cuebooth.Api.Connection.Run.Tracked.{latched, holds}
use cuebooth.Api.Connection.Run.Released.{none_latched}
use cuebooth.Api.Connection.Run.Traces.{
  marshal, marshal_key, marshal_layout, told_end, told_end_reached, held_end, held_end_reached,
}

handshake_told_example :
    (told_end.writer ≡ stopped)
    × ((invalid_payload ≡ invalid_payload)
        × Member (marshal (error_frame protocol)) told_end.written)
handshake_told_example =
    handshake_told ℕ marshal marshal_key marshal_layout 0 told_end invalid_payload
      (bytes "malformed frame") told_end_reached refl refl

none_latched_example :
    (latched 1 held_end.calls ≡ false)
    × ((holds 1 held_end.conn.held_surface_keys ≡ false)
        × ((held_end.writer ≡ stopped) × (held_end.pings ≡ false)))
none_latched_example =
    none_latched ℕ marshal marshal_key marshal_layout 2 held_end 1 held_end_reached refl

-- The connections take all the time that a stop has for them.
abbrev slow : Wants
slow = record { requests = 4 * second; handlers = 60 * second; tokens = 19 * second }

abbrev no_error : Option ℕ
no_error = none
