-- ===== src/Security.antt =====
-- src/security: the tokens of administrators.
pub mod AdminToken
