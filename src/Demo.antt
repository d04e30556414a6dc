-- ===== src/Demo.antt =====
-- The demonstration, demo/.
pub mod Publisher
pub mod Observer
