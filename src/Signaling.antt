-- ===== src/Signaling.antt =====
-- internal/signaling: the messages, and the hub that routes them.
pub mod Message
pub mod Hub
pub mod Room
