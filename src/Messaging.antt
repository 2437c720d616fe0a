-- ===== src/Messaging.antt =====
-- The messaging gateway, messaging/: who is connected, the tokens that keep a message from being sent
-- twice, and the typing notices.
pub mod Presence
pub mod Drafts
pub mod Sending
pub mod Tokens
pub mod Typing
