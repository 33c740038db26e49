-- ===== src/Memory.antt =====
-- Moving bytes about in one block of memory.
pub mod Rotate
