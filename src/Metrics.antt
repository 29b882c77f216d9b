-- ===== src/Metrics.antt =====
-- internal/metrics: the history of samples, and where samples come from.
pub mod History
pub mod Keys
pub mod Pods
pub mod Server
pub mod Prometheus
pub mod Factory
