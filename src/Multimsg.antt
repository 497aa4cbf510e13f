-- ===== src/Multimsg.antt =====
-- internal/multimsg: group messages as independent deliveries over the pairwise sessions.
pub mod Types
pub mod Wire
pub mod Contexts
pub mod Deliveries
pub mod Memory
pub mod Fanout
