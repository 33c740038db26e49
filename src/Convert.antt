-- ===== src/Convert.antt =====
-- Conversion of integers between the types of a C program, and the COBS encoding of messages.
pub mod Cobs
pub mod Int
