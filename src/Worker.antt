-- ===== src/Worker.antt =====
-- worker/: the background workers.
pub mod Monitor
pub mod NodeMonitor
pub mod Controller
pub mod Election
pub mod DhParams
mod Tests
