-- ===== src/Config.antt =====
-- The configuration of a node from its environment (internal/config/config.go).
pub mod Text
pub mod Numbers
pub mod Peers
pub mod Env
pub mod Valid
pub mod Sensible
pub mod Durations
pub mod Shared
