-- ===== src/Tenant.antt =====
-- services/tenant-service: tenants, their plans and their settings.
pub mod Domain
pub mod Ports
pub mod Slugs
pub mod Service
pub mod Plans
pub mod Lifecycle
pub mod Http
pub mod Example
pub mod Tests
