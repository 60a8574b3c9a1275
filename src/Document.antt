-- ===== src/Document.antt =====
-- services/document-service: documents with their versions, and forms with their submissions.
pub mod Domain
pub mod Ports
pub mod Repository
pub mod Documents
pub mod Forms
pub mod Submissions
pub mod Collections
pub mod Uploads
pub mod Templates
pub mod Http
mod Memory
mod Tests
