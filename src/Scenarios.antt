-- ===== src/Scenarios.antt =====
-- Concrete runs, and the theorems at concrete inputs.
pub mod Data
mod Checks
mod Players
mod Network
mod Days
mod Sessions
mod Pages
mod Owners
mod Schemas
mod Commands
mod Outages
mod Roles
mod Histories
mod Recoveries
