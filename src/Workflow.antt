-- ===== src/Workflow.antt =====
-- services/workflow-service: cases, their transitions, tasks, comments and workflow templates.
pub mod Domain
pub mod Ports
pub mod Calls
pub mod Cases
pub mod Tasks
pub mod Templates
pub mod Http
pub mod Example
pub mod Mysql
