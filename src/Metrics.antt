-- ===== src/Metrics.antt =====
-- packages/driver/src/metrics: what the driver watches about itself.
pub mod StormAlarm
