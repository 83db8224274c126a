-- ===== src/Broker.antt =====
-- The operator side of the broker-TLS change (siem/rbac/broker_tls): observations that fail closed.
pub mod Core
pub mod Recovery
pub mod Manifest
pub mod Verify
pub mod Os
pub mod Files
pub mod Service
pub mod Process
