-- ===== src/Tasks.antt =====
-- The life of a task: pkg/store/mysql/task_repository.go and internal/service/task_service.go.
pub mod Table
pub mod Service
pub mod Assignment
pub mod Life
pub mod Runs
pub mod Races
pub mod Names
pub mod Orphans
mod Tests
