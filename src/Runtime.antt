-- ===== src/Runtime.antt =====
-- The runtime of the composition functions: pkg/comp-functions/runtime.
pub mod Naming
pub mod Protection
pub mod Dependencies
pub mod Examples
