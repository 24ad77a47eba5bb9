-- ===== src/Mailbox.antt =====
-- internal/mailbox
pub mod Message
pub mod Client
