-- ===== src/State/Manager.antt =====
-- state/state.go: the manager of the node's state, over any store. The children have its
-- operations on sites, on secrets, on certificates, and on health and DH parameters.
pub mod Locks
pub mod Frame
pub mod Sites
pub mod Secrets
pub mod Certificates
pub mod Status
