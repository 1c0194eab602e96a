-- ===== src/Pods.antt =====
-- Failing pods: pkg/status/sanitizer.go and pkg/deploy/k8s/worker_status_monitor.go.
pub mod Mappings
pub mod Sanitizer
pub mod Monitor
mod Tests
