-- ===== src/Event.antt =====
-- mptcore/event.
pub mod Command
