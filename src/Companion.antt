-- ===== src/Companion.antt =====
-- server/internal/companion: the Companion HTTP client, button coordinates, and the Satellite surface.
pub mod Client
pub mod Location
pub mod Line
pub mod Satellite
