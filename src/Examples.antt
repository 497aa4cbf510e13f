-- ===== src/Examples.antt =====
-- Runs of the code at concrete inputs.
pub mod Toy
pub mod Session
pub mod Meeting
pub mod Conversation
pub mod Book
pub mod Files
pub mod Groups
pub mod Inbox
pub mod Sends
pub mod Mail
pub mod Words
pub mod Container
