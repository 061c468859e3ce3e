-- ===== src/Gateway.antt =====
-- The Go package `gateway`.
pub mod Capture
pub mod Usage
pub mod Route
pub mod Metering
pub mod Bearer
pub mod Registry
pub mod Membership
pub mod Portal
pub mod Observed
pub mod Proxy
