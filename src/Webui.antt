-- ===== src/Webui.antt =====
-- internal/webui: the dashboard.
pub mod Session
pub mod Scope
pub mod Http
pub mod Handlers
pub mod Cert
pub mod Listen
pub mod ClientInfo
pub mod Server
