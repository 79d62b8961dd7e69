-- ===== src/Metrics.antt =====
-- src/app/metrics/anchor_metrics.py: the metrics that the service registers, and the calls on them.
-- prometheus_client keeps their values; their texts of help are not modelled. Times are in microseconds.
pub mod Metric
pub mod Anchoring
pub mod Upkeep
pub mod Recording
pub mod Registered
