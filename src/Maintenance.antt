-- ===== src/Maintenance.antt =====
-- The maintenance jobs: pkg/maintenance.
pub mod Backup
pub mod Semver
pub mod Release
pub mod Helm
pub mod Postgresql
pub mod Examples
