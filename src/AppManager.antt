-- ===== src/AppManager.antt =====
-- appmanager/appmanager.go: the apps on the disk of the node.
pub mod Signing
pub mod Archive
pub mod Bundles
pub mod Staging
pub mod Files
pub mod Local
pub mod Sites
pub mod Misc
pub mod Apps
mod Tests
