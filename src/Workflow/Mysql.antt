-- ===== src/Workflow/Mysql.antt =====
-- services/workflow-service/internal/adapters/mysql: the rows, their conversions, and the
-- repositories that the services are given. `encoding/json` is a parameter.
pub mod Rows
pub mod Repositories
pub mod Numbers
