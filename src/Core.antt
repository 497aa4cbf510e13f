-- ===== src/Core.antt =====
-- core/: the handshake of two clients.
pub mod Wire
pub mod Engine
