-- ===== src/Document/Http/Uploading.antt =====
-- Uploads to services/document-service over http that are refused.
use ops_nexus.Document.Domain.{unsupported_file_type}
use ops_nexus.Prelude.Int.{ℤ}
use ops_nexus.Document.Ports.{Ports, World}
use ops_nexus.Document.Http
use ops_nexus.Document.Http.{Multipart, ℤ, unsupported_file_type}
