-- ===== src/Integration.antt =====
-- internal/integration: listings of VoxelLink, fetched, validated and imported.
pub mod Client
pub mod Sync
