-- ===== src/Private.antt =====
-- shiroclient/private/private.go: messages with private data, over any client.
pub mod Message
pub mod Seed
pub mod Encode
pub mod Subject
pub mod Wrap
