-- ===== src/Crypto.antt =====
-- crypto/: the message frame and the double ratchet of a session.
pub mod SecureMessage
pub mod Ratchet
pub mod Handshake
