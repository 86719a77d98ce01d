-- ===== src/Chat.antt =====
-- server/internal/chat: the Restream chat provider.
pub mod Restream
pub mod TokenStore
