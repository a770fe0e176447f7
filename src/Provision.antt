-- ===== src/Provision.antt =====
-- internal/provision: setup, the web service, and the health checks.
pub mod Files
pub mod Service
pub mod Setup
pub mod Doctor
