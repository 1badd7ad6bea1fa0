-- ===== src/Webhooks/Examples.antt =====
-- Runs of the webhooks of pkg/controller/webhooks on concrete objects.
mod Deletions
mod Disks
