-- ===== src/TcpGateway.antt =====
-- The webhook that places TCP listeners on gateways: pkg/controller/webhooks/tcpgateway.
pub mod Sharding
pub mod Objects
pub mod Cluster
pub mod Allocator
pub mod Handler
pub mod Examples
