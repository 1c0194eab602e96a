-- ===== src/Autoscaler.antt =====
-- The autoscaler (pkg/autoscaler, pkg/interfaces/autoscaler.go): its data, and the parts below.
pub mod Types
pub mod Priority
pub mod ScaleUp
pub mod Fair
pub mod ScaleDown
pub mod Preempt
pub mod Engine
pub mod World
pub mod Lock
pub mod Recorder
pub mod Orphan
pub mod Executor
pub mod Collector
pub mod Calculator
pub mod Control
pub mod Cycle
mod ManagerTests
mod Tests
