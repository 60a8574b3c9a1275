-- ===== src/Storage.antt =====
-- What the services keep: the database tables that gorm gives them, and the repositories that the
-- services see (services/*/internal/ports/repository.go).
mod Defs
pub mod Evolution
pub mod Gorm
pub mod Writes
pub mod Memory
pub mod World
pub use Defs.*
