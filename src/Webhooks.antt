-- ===== src/Webhooks.antt =====
-- The validating webhooks: pkg/controller/webhooks.
pub mod Deletion
pub mod Disk
pub mod Examples
