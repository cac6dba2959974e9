-- ===== src/Server.antt =====
-- The binder server: src/binderd/registry.cpp, server_session.cpp and what they share.
pub mod State
pub mod Output
pub mod Registry
pub mod Translate
pub mod Handlers
pub mod Lifecycle
pub mod Invariant
