-- ===== src/Gateway.antt =====
-- src/gateway: the gateway's request path.
pub mod Cache
pub mod Circuit
pub mod Floats
pub mod Scheduler
pub mod Retry
pub mod Dispatch
pub mod Validator
pub mod Signing
pub mod PromptCache
pub mod ModelHealth
pub mod Translator
pub mod Stream
pub mod Admission
pub mod Headers
