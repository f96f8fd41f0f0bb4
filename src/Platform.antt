-- ===== src/Platform.antt =====
-- The user platform.
pub mod Guard
pub mod Username
