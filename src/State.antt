-- ===== src/State.antt =====
-- The state of the node and the component that keeps it (state/).
pub mod Types
pub mod Store
pub mod StoreFile
pub mod Etcd
pub mod StoreEtcd
pub mod Manager
pub mod Samples
mod Tests
