-- ===== src/Api.antt =====
-- The HTTP handlers (api/routes/).
pub mod Handler
pub mod Sites
pub mod Patch
pub mod Auth
pub mod DhParams
pub mod Status
pub mod Apps
pub mod Certificates
mod Tests
