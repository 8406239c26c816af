-- ===== src/Monitor.antt =====
-- The watch over the connections: services/ConnectionMonitorService.ts.
pub mod Watch
pub mod Alerts
pub mod Totals
mod Tests
