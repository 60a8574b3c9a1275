-- ===== src/Notification.antt =====
-- services/notification-service: notifications of users, and the audit trail.
pub mod Domain
pub mod Items
pub mod Ports
pub mod Paging
pub mod Repository
pub mod Service
pub mod Kept
pub mod Lifecycle
pub mod Delivery
pub mod Queries
pub mod Reads
pub mod Http
mod Memory
mod Tests
