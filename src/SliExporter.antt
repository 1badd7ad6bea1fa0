-- ===== src/SliExporter.antt =====
-- The exporter of service level indicators: pkg/sliexporter.
pub mod Probes
pub mod Examples
