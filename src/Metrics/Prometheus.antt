-- ===== src/Metrics/Prometheus.antt =====
-- internal/metrics/prometheus.go and prometheus_queries.go: the fetcher for Prometheus. Its parts are
-- the modules below.
pub mod Query
pub mod Merge
pub mod Aligned
pub mod Columns
pub mod Fetch
pub mod Access
pub mod Window
