-- ===== src/Web.antt =====
-- internal/web/app.go: the public pages and the console of the owners.
pub mod Request
pub mod Session
pub mod Login
pub mod Report
pub mod Console
pub mod Backend
pub mod Router
