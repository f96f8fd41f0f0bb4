-- ===== src/Acugw.antt =====
-- The gateway of the account pool, acugw.
pub mod Pool
pub mod Stream
pub mod Api
