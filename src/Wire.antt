-- ===== src/Wire.antt =====
-- The two sides' XDR routines put together: what the client sends is what the server reads, and the
-- other way round.
pub mod Bounds
pub mod Args
pub mod Size
