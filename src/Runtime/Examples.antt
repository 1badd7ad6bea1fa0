-- ===== src/Runtime/Examples.antt =====
-- Runs of pkg/comp-functions/runtime on concrete names and resources.
mod Labels
mod Resources
