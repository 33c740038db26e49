-- ===== src/Message.antt =====
-- Messages: their data in parts, and their identifiers.
pub mod Get
pub mod Id
pub mod Read
