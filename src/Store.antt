-- ===== src/Store.antt =====
-- internal/store/postgres.go: the repository over PostgreSQL.
pub mod Tables
pub mod Connect
pub mod Session
pub mod Checks
pub mod Signal
pub mod Record
pub mod History
pub mod Servers
pub mod Notices
pub mod Reports
pub mod Imports
pub mod Retention
pub mod Owner
pub mod Snapshots
pub mod Uptime
